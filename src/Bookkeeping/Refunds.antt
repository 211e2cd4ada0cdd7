-- ===== src/Bookkeeping/Refunds.antt =====
-- GetHermesBookkeeping: the entry of a delegate, and the whole answer.
use iotex_analytics.Common.{
  ℕ, ◌+◌, ◌-◌, ◌≤◌, ◌≡◌, refl, ℤ, pos, pos_part, neg_part, ◌+ℤ◌, List, [], ◌∷◌, String, Assoc,
  nat_eq, string_eq, lookup_or, total, sum_by, Go, ok, bind_go, bind_go-eq-ok, fold_go, arith,
  wrapped, wrapped-eq-ok, length,
}
use iotex_analytics.Bookkeeping.Split.{RewardDistribution, convert_voter_distribution_map_to_list}
use iotex_analytics.Bookkeeping.SplitBounds.{sum-convert_voter_distribution_map_to_list}
use iotex_analytics.Bookkeeping.Plans.{HermesDistributionPlan, HermesDistributionSource, ByDelegate}
use iotex_analytics.Bookkeeping.Hermes.{
  DelegateHermesDistribution, Progress, no_progress, total_rewards, pay_hermes_epoch, pay_delegate,
  collect, get_hermes_bookkeeping,
}
use iotex_analytics.Bookkeeping.HermesBalance.{Holds, IsFunded, fold-pay_hermes_epoch}
use iotex_analytics.Bookkeeping.Tables.{Tables}
use iotex_analytics.Bookkeeping.Split.{last_epoch}
use iotex_analytics.Bookkeeping.Plans.{
  search_pairs, account_rewards, distribution_plan_by_reward_address,
  weighted_votes_by_search_pairs,
}

refund_of : (r : ℤ) (p n : ℕ) → pos_part r + p ≡ neg_part r + n → p ≤ n → r ≡ pos (n - p)
refund_of r p n e h = ground arith

refund-adds : (r : ℤ) (p n : ℕ) → pos_part r + p ≡ neg_part r + n → r +ℤ pos p ≡ pos n
unfolding ◌+ℤ◌
refund-adds r p n e = ground arith

-- The rewards of a delegate over its epochs.
abbrev pub rewards_of : Assoc ℕ HermesDistributionSource → ℕ
rewards_of = sum_by (λ (e : ℕ × HermesDistributionSource). total_rewards e.1)

abbrev pub paid_out : DelegateHermesDistribution → ℕ
paid_out d = sum_by (λ (r : RewardDistribution). r.amount) d.distributions

-- An entry accounts for the rewards of its delegate: refund and amounts are the rewards.
abbrev pub AccountsFor :
    String × Assoc ℕ HermesDistributionSource → DelegateHermesDistribution → Type 0
AccountsFor (name, rewards) d =
    (d.delegate_name ≡ name) × (d.refund +ℤ pos (paid_out d) ≡ pos (rewards_of rewards))

-- The entry that the loop leaves.
abbrev pub entry : String → Progress → List RewardDistribution → DelegateHermesDistribution
entry name st ds = record {
  delegate_name = name;
  distributions = ds;
  staking_iotex_address = st.staking_address;
  voter_count = length st.voters;
  waive_service_fee = st.fee_waiver;
  refund = st.balance;
}

entry-balance :
    (name : String) (st : Progress) (ds : List RewardDistribution) (n : ℕ)
    → Holds st (0 + n)
    → sum_by (λ (r : RewardDistribution). r.amount) ds ≡ total st.voter_rewards
    → pos_part (entry name st ds).refund + paid_out (entry name st ds)
      ≡ neg_part (entry name st ds).refund + n
unfolding Holds
entry-balance name st ds n k e = omega (arith, k, e)

no_progress-Holds : Holds no_progress 0
unfolding Holds
no_progress-Holds = refl

module _ (to_io : String → Go String) (threshold : ℕ) (plans : ByDelegate HermesDistributionPlan)
    (voters : ByDelegate (Assoc String ℕ)) (name : String)
    (rewards : Assoc ℕ HermesDistributionSource) (d : DelegateHermesDistribution) where
  named : pay_delegate to_io threshold plans voters (name, rewards) ≡ ok d → d.delegate_name ≡ name
  unfolding pay_delegate
  named h = ground (arith, h)

  -- Refund and payments against the rewards; with covered votes the payments are not above them.
  pub pay_delegate-balance :
      pay_delegate to_io threshold plans voters (name, rewards) ≡ ok d
      → (pos_part d.refund + paid_out d ≡ neg_part d.refund + rewards_of rewards)
        × (((epoch : ℕ) → IsFunded (lookup_or [] name plans) (lookup_or [] name voters) epoch)
            → paid_out d ≤ rewards_of rewards)
  unfolding pay_delegate
  pay_delegate-balance h =
      let convert : Progress → Go (List RewardDistribution) = λ st.
        wrapped "failed to convert voter distribution map to list"
          (convert_voter_distribution_map_to_list to_io st.voter_rewards) in
      let step =
        pay_hermes_epoch to_io threshold (lookup_or [] name plans) (lookup_or [] name voters) in
      let (st, loop, rest) =
        bind_go-eq-ok (fold_go step no_progress rewards)
          (λ st. bind_go (convert st) (λ ds. ok (entry name st ds))) h in
      let (ds, e, last) = bind_go-eq-ok (convert st) (λ ds. ok (entry name st ds)) rest in
      let sum = sum-convert_voter_distribution_map_to_list to_io st.voter_rewards ds (
        wrapped-eq-ok "failed to convert voter distribution map to list"
          (convert_voter_distribution_map_to_list to_io st.voter_rewards) e) in
      let (held, le) =
        fold-pay_hermes_epoch to_io threshold (lookup_or [] name plans) (lookup_or [] name voters)
          rewards no_progress st 0 loop no_progress-Holds in
      let is_entry : entry name st ds ≡ d = ground (arith, last) in
      (
        rw (← is_entry) (entry-balance name st ds (rewards_of rewards) held sum),
        λ f. rw (← is_entry) (omega (arith, le f, sum)),
      )

  pay_delegate-AccountsFor :
      pay_delegate to_io threshold plans voters (name, rewards) ≡ ok d
      → AccountsFor (name, rewards) d
  unfolding pay_delegate
  pay_delegate-AccountsFor h =
      (named h, refund-adds d.refund (paid_out d) (rewards_of rewards) (pay_delegate-balance h).0)

  -- The refund of a delegate is not negative when each plan covers the votes of its epoch and no
  -- percentage is above a hundred.
  pub pay_delegate-refund_nonneg :
      pay_delegate to_io threshold plans voters (name, rewards) ≡ ok d
      → ((epoch : ℕ) → IsFunded (lookup_or [] name plans) (lookup_or [] name voters) epoch)
      → d.refund ≡ pos (rewards_of rewards - paid_out d)
  pay_delegate-refund_nonneg h f =
      refund_of d.refund (paid_out d) (rewards_of rewards) (pay_delegate-balance h).0
        ((pay_delegate-balance h).1 f)

-- The two lists have the same length, and the relation holds at each place.
abbrev pub Pairwise {ℓ κ} : {A : Type ℓ} {B : Type κ} → (A → B → Type 0) → List A → List B → Type 0
Pairwise R [] [] = Unit {0}
Pairwise R (x ∷ xs) (y ∷ ys) = R x y × Pairwise R xs ys
Pairwise R _ _ = ⊥

collect-Pairwise {ℓ κ} :
    {A : Type ℓ} {B : Type κ} (R : A → B → Type 0) (f : A → Go B)
    → ((x : A) (y : B) → f x ≡ ok y → R x y)
    → (xs : List A) (ys : List B) → collect f xs ≡ ok ys
    → Pairwise R xs ys
collect-Pairwise R f step [] [] h = tt
collect-Pairwise R f step [] (y ∷ ys) h = absurd (cc h)
collect-Pairwise R f step (x ∷ xs) zs h =
    let (y, e, rest) = bind_go-eq-ok (f x) (λ y. bind_go (collect f xs) (λ ys. ok (y ∷ ys))) h in
    let (ys, e', last) = bind_go-eq-ok (collect f xs) (λ ys. ok (y ∷ ys)) rest in
    let same : y ∷ ys ≡ zs = ground (arith, last) in
    rw (← same) (step x y e, collect-Pairwise R f step xs ys e')

-- GetHermesBookkeeping answers with one entry for each delegate whose rewards were read, in their
-- order, and in each the refund and the amounts of the voters make up exactly the delegate's rewards
-- (the refund may be negative).
pub get_hermes_bookkeeping-AccountsFor :
    (to_io : String → Go String) (t : Tables) (start count : ℕ) (address : String) (threshold : ℕ)
    (plans : ByDelegate HermesDistributionPlan) (rewards : ByDelegate HermesDistributionSource)
    (ds : List DelegateHermesDistribution)
    → distribution_plan_by_reward_address t start (last_epoch start count) address ≡ ok plans
    → account_rewards t (search_pairs plans) ≡ ok rewards
    → get_hermes_bookkeeping to_io t start count address threshold ≡ ok ds
    → Pairwise AccountsFor rewards ds
unfolding get_hermes_bookkeeping
get_hermes_bookkeeping-AccountsFor to_io t start count address threshold plans rewards ds p r h =
    let read : Go (ByDelegate (Assoc String ℕ)) =
      wrapped "failed to get voter votes" (weighted_votes_by_search_pairs t (search_pairs plans)) in
    let opened : bind_go read
          (λ voters. collect (pay_delegate to_io threshold plans voters) rewards)
        ≡ ok ds =
      rw (p, r) at h in
    let (voters, e, paid) =
      bind_go-eq-ok read (λ voters. collect (pay_delegate to_io threshold plans voters) rewards)
        opened in
    collect-Pairwise AccountsFor (pay_delegate to_io threshold plans voters)
      (λ x d e. pay_delegate-AccountsFor to_io threshold plans voters x.0 x.1 d e) rewards ds paid
