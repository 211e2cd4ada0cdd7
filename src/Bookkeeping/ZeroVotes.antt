-- ===== src/Bookkeeping/ZeroVotes.antt =====
-- An epoch in which the plan of a delegate has no votes: GetHermesBookkeeping, which divides by them
-- without the test that GetBookkeeping makes.
use iotex_analytics.Common.{
  ℕ, ◌≡◌, ◌≢◌, refl, some, List, [], ◌∷◌, ◌++◌, String, Assoc, nat_eq, string_eq, lookup, lookup_or,
  Go, ok, panic, bind_go, bind_go-eq-ok, fold_go, quo, arith,
}
use iotex_analytics.Bookkeeping.Tables.{Tables}
use iotex_analytics.Bookkeeping.Split.{last_epoch}
use iotex_analytics.Bookkeeping.Plans.{
  HermesDistributionPlan, HermesDistributionSource, ByDelegate, search_pairs, account_rewards,
  distribution_plan_by_reward_address, weighted_votes_by_search_pairs,
  calculated_distributed_reward,
}
use iotex_analytics.Bookkeeping.Hermes.{
  DelegateHermesDistribution, Progress, no_progress, staking_of, pay_hermes_voter, pay_hermes_epoch,
  pay_delegate, collect, get_hermes_bookkeeping,
}
use iotex_analytics.Bookkeeping.HermesBalance.{credited}

-- A step that never returns ends a loop.
fold_go-never :
    {A B : Type 0} (f : B → A → Go B) (x : A)
    → ((b c : B) → f b x ≢ ok c)
    → (xs ys : List A) (b c : B) → fold_go f b (xs ++ x ∷ ys) ≢ ok c
unfolding fold_go
fold_go-never f x never [] ys b c e =
    let (b', first, rest) = bind_go-eq-ok (f b x) (λ b. fold_go f b ys) e in never b b' first
fold_go-never f x never (y ∷ xs) ys b c e =
    let (b', first, rest) = bind_go-eq-ok (f b y) (λ b. fold_go f b (xs ++ x ∷ ys)) e in
    fold_go-never f x never xs ys b' c rest

collect-never :
    {A B : Type 0} (f : A → Go B) (x : A)
    → ((b : B) → f x ≢ ok b)
    → (xs ys : List A) (bs : List B) → collect f (xs ++ x ∷ ys) ≢ ok bs
collect-never f x never [] ys bs e =
    let (b, first, rest) =
      bind_go-eq-ok (f x) (λ b. bind_go (collect f ys) (λ bs. ok (b ∷ bs))) e in
    never b first
collect-never f x never (y ∷ xs) ys bs e =
    let (b, first, rest) =
      bind_go-eq-ok (f y) (λ b. bind_go (collect f (xs ++ x ∷ ys)) (λ bs. ok (b ∷ bs))) e in
    let (bs', inner, last) = bind_go-eq-ok (collect f (xs ++ x ∷ ys)) (λ bs. ok (b ∷ bs)) rest in
    collect-never f x never xs ys bs' inner

pay_hermes_voter-zero :
    (reward : ℕ) (st : Progress) (e : String × ℕ) (info : Assoc String ℕ)
    → fold_go (pay_hermes_voter reward 0) st (e ∷ info) ≡ panic
unfolding fold_go pay_hermes_voter quo
pay_hermes_voter-zero reward st (voter, votes) info = refl

-- The epoch has a voter and a plan, and the total votes of the plan are zero.
pub record HasNoVotes (plans : Assoc ℕ HermesDistributionPlan) (voters : Assoc ℕ (Assoc String ℕ))
    (epoch : ℕ) : Type 0 where
  pub plan : HermesDistributionPlan
  pub planned : lookup epoch plans ≡ some plan
  pub no_votes : plan.total_weighted_votes ≡ 0
  pub voter : String × ℕ
  pub others : Assoc String ℕ
  pub voting : lookup_or [] epoch voters ≡ voter ∷ others

module _ (to_io : String → Go String) (threshold : ℕ) where
  pay_hermes_epoch-never :
      (plans : Assoc ℕ HermesDistributionPlan) (voters : Assoc ℕ (Assoc String ℕ)) (epoch : ℕ)
      (rewards : HermesDistributionSource)
      → HasNoVotes plans voters epoch
      → (st st' : Progress)
      → pay_hermes_epoch to_io threshold plans voters st (epoch, rewards) ≢ ok st'
  unfolding pay_hermes_epoch
  pay_hermes_epoch-never plans voters epoch rewards z st st' e =
      let e' : bind_go (staking_of to_io z.plan st.staking_address) (λ address.
        fold_go
          (pay_hermes_voter (calculated_distributed_reward z.plan rewards)
            z.plan.total_weighted_votes)
          (credited st z.plan rewards threshold address) (lookup_or [] epoch voters))
          ≡ ok st' =
        rw (z.planned, pay_hermes_epoch) at e in
      let (address, _, rest) =
        bind_go-eq-ok (staking_of to_io z.plan st.staking_address)
          (λ address.
            fold_go
              (pay_hermes_voter (calculated_distributed_reward z.plan rewards)
                z.plan.total_weighted_votes)
              (credited st z.plan rewards threshold address) (lookup_or [] epoch voters))
          e' in
      let none_left = rw (z.voting, z.no_votes) at rest in
      absurd (
        ground (
          arith,
          none_left,
          pay_hermes_voter-zero (calculated_distributed_reward z.plan rewards)
              (credited st z.plan rewards threshold address) z.voter z.others,
        ))

  pay_delegate-never :
      (plans : ByDelegate HermesDistributionPlan) (voters : ByDelegate (Assoc String ℕ))
      (name : String) (before after : Assoc ℕ HermesDistributionSource) (epoch : ℕ)
      (rewards : HermesDistributionSource)
      → HasNoVotes (lookup_or [] name plans) (lookup_or [] name voters) epoch
      → (d : DelegateHermesDistribution)
      → pay_delegate to_io threshold plans voters (name, before ++ (epoch, rewards) ∷ after) ≢ ok d
  unfolding pay_delegate
  pay_delegate-never plans voters name before after epoch rewards z d e =
      let step =
        pay_hermes_epoch to_io threshold (lookup_or [] name plans) (lookup_or [] name voters) in
      let (st, folded, _) =
        bind_go-eq-ok (fold_go step no_progress (before ++ (epoch, rewards) ∷ after)) _ e in
      fold_go-never step (epoch, rewards)
        (pay_hermes_epoch-never (lookup_or [] name plans) (lookup_or [] name voters) epoch rewards
          z)
        before after no_progress st folded

-- When the three reads return, and among the rewards read is an epoch of a delegate that has a voter and
-- a plan whose total votes are zero, GetHermesBookkeeping returns no list, wherever the delegate and the
-- epoch stand.
pub get_hermes_bookkeeping-zero :
    (to_io : String → Go String) (t : Tables) (start count : ℕ) (address : String) (threshold : ℕ)
    (plans : ByDelegate HermesDistributionPlan) (rewards : ByDelegate HermesDistributionSource)
    (voters : ByDelegate (Assoc String ℕ)) (name : String)
    (delegates more : ByDelegate HermesDistributionSource)
    (before after : Assoc ℕ HermesDistributionSource) (epoch : ℕ)
    (source : HermesDistributionSource)
    → distribution_plan_by_reward_address t start (last_epoch start count) address ≡ ok plans
    → account_rewards t (search_pairs plans) ≡ ok rewards
    → weighted_votes_by_search_pairs t (search_pairs plans) ≡ ok voters
    → rewards ≡ delegates ++ (name, before ++ (epoch, source) ∷ after) ∷ more
    → HasNoVotes (lookup_or [] name plans) (lookup_or [] name voters) epoch
    → (ds : List DelegateHermesDistribution)
    → get_hermes_bookkeeping to_io t start count address threshold ≢ ok ds
unfolding get_hermes_bookkeeping
get_hermes_bookkeeping-zero to_io t start count address threshold plans rewards voters name
      delegates more before after epoch source p r v are z ds e =
    let collected : collect (pay_delegate to_io threshold plans voters) rewards ≡ ok ds =
      rw (p, r, v) at e in
    collect-never (pay_delegate to_io threshold plans voters)
      (name, before ++ (epoch, source) ∷ after)
      (pay_delegate-never to_io threshold plans voters name before after epoch source z) delegates
      more ds (rw are at collected)
