-- ===== src/Bookkeeping/HermesReturns.antt =====
-- GetHermesBookkeeping on complete data: it returns.
use iotex_analytics.Common.{
  ℕ, ◌*◌, ◌/◌, ◌<◌, ◌≡◌, refl, some, List, [], ◌∷◌, String, Assoc, nat_eq, string_eq, lookup,
  lookup_or, All, Go, ok, fold_go, fold_go-runs, quo_pos, arith, str_eq, if◌then◌else◌,
}
use iotex_analytics.Bookkeeping.Tables.{Tables}
use iotex_analytics.Bookkeeping.Split.{last_epoch}
use iotex_analytics.Bookkeeping.SplitReturns.{trivial, convert-runs}
use iotex_analytics.Bookkeeping.Plans.{
  HermesDistributionPlan, HermesDistributionSource, ByDelegate, search_pairs, account_rewards,
  distribution_plan_by_reward_address, weighted_votes_by_search_pairs,
  calculated_distributed_reward,
}
use iotex_analytics.Bookkeeping.Hermes.{
  DelegateHermesDistribution, Progress, no_progress, pay_hermes_voter, staking_of, pay_hermes_epoch,
  pay_delegate, collect, get_hermes_bookkeeping,
}
use iotex_analytics.Bookkeeping.HermesBalance.{paid, credited}
use iotex_analytics.Bookkeeping.Refunds.{entry}

pay_hermes_voter-runs :
    (reward total : ℕ) (st : Progress) (e : String × ℕ)
    → 0 < total
    → (st' : Progress) × (pay_hermes_voter reward total st e ≡ ok st') × Unit {0}
unfolding pay_hermes_voter
pay_hermes_voter-runs reward total st (voter, votes) p =
    (paid st voter (reward * votes / total), rw (quo_pos (reward * votes) total p) refl, tt)

fold-pay_hermes_voter-runs :
    (reward total : ℕ) (info : Assoc String ℕ) (st : Progress)
    → 0 < total
    → (st' : Progress) × (fold_go (pay_hermes_voter reward total) st info ≡ ok st') × Unit {0}
fold-pay_hermes_voter-runs reward total info st p =
    fold_go-runs (λ st. Unit {0}) (λ e. Unit {0}) (pay_hermes_voter reward total)
      (λ st e u v. pay_hermes_voter-runs reward total st e p) st info tt (trivial info)

-- The epoch has a plan, and its total votes are not zero.
abbrev pub IsPlanned : Assoc ℕ HermesDistributionPlan → ℕ × HermesDistributionSource → Type 0
IsPlanned plans (epoch, rewards) =
    (plan : HermesDistributionPlan) × (lookup epoch plans ≡ some plan)
    × (0 < plan.total_weighted_votes)

module _ (to_io : String → Go String) (converts : (a : String) → (b : String) × (to_io a ≡ ok b))
    (threshold : ℕ) where
  staking_of-runs :
      (plan : HermesDistributionPlan) (known : String)
      → (a : String) × (staking_of to_io plan known ≡ ok a)
  staking_of-runs plan known =
      let (io, e) = converts plan.staking_address in
      (if str_eq known "" then io else known, ground (arith, e))

  pay_hermes_epoch-runs :
      (plans : Assoc ℕ HermesDistributionPlan) (voters : Assoc ℕ (Assoc String ℕ)) (st : Progress)
      (e : ℕ × HermesDistributionSource)
      → Unit {0}
      → IsPlanned plans e
      → (st' : Progress) × (pay_hermes_epoch to_io threshold plans voters st e ≡ ok st') × Unit {0}
  unfolding pay_hermes_epoch
  pay_hermes_epoch-runs plans voters st (epoch, rewards) u (plan, there, p) =
      let (address, e) = staking_of-runs plan st.staking_address in
      let (st', e', done) =
        fold-pay_hermes_voter-runs (calculated_distributed_reward plan rewards)
          plan.total_weighted_votes (lookup_or [] epoch voters)
          (credited st plan rewards threshold address) p in
      (st', rw (there, pay_hermes_epoch) (rw e e'), tt)

  pay_delegate-runs :
      (plans : ByDelegate HermesDistributionPlan) (voters : ByDelegate (Assoc String ℕ))
      (x : String × Assoc ℕ HermesDistributionSource)
      → All (IsPlanned (lookup_or [] x.0 plans)) x.1
      → (d : DelegateHermesDistribution) × (pay_delegate to_io threshold plans voters x ≡ ok d)
  unfolding pay_delegate
  pay_delegate-runs plans voters (name, rewards) h =
      let (st, e, done) =
        fold_go-runs (λ st. Unit {0}) (IsPlanned (lookup_or [] name plans))
          (pay_hermes_epoch to_io threshold (lookup_or [] name plans) (lookup_or [] name voters))
          (pay_hermes_epoch-runs (lookup_or [] name plans) (lookup_or [] name voters)) no_progress
          rewards tt h in
      let (ds, e') = convert-runs to_io converts st.voter_rewards in
      (entry name st ds, rw e (rw e' refl))

  collect-runs :
      (plans : ByDelegate HermesDistributionPlan) (voters : ByDelegate (Assoc String ℕ))
      (xs : ByDelegate HermesDistributionSource)
      → All
          (λ (x : String × Assoc ℕ HermesDistributionSource).
            All (IsPlanned (lookup_or [] x.0 plans)) x.1)
          xs
      → (ds : List DelegateHermesDistribution) × (collect
            (pay_delegate to_io threshold plans voters)
            xs
          ≡ ok ds)
  collect-runs plans voters [] h = ([], refl)
  collect-runs plans voters (x ∷ xs) (k, h) =
      let (d, e) = pay_delegate-runs plans voters x k in
      let (ds, e') = collect-runs plans voters xs h in (d ∷ ds, rw e (rw e' refl))

-- When the three reads return, every epoch with rewards has a plan whose total votes are not zero, and
-- every address can be converted, GetHermesBookkeeping returns its list.
pub get_hermes_bookkeeping-returns :
    (to_io : String → Go String) (t : Tables) (start count : ℕ) (address : String) (threshold : ℕ)
    (plans : ByDelegate HermesDistributionPlan) (rewards : ByDelegate HermesDistributionSource)
    (voters : ByDelegate (Assoc String ℕ))
    → distribution_plan_by_reward_address t start (last_epoch start count) address ≡ ok plans
    → account_rewards t (search_pairs plans) ≡ ok rewards
    → weighted_votes_by_search_pairs t (search_pairs plans) ≡ ok voters
    → All
        (λ (x : String × Assoc ℕ HermesDistributionSource).
          All (IsPlanned (lookup_or [] x.0 plans)) x.1)
        rewards
    → ((a : String) → (b : String) × (to_io a ≡ ok b))
    → (ds : List DelegateHermesDistribution) × (get_hermes_bookkeeping to_io t start count address
          threshold
        ≡ ok ds)
unfolding get_hermes_bookkeeping
get_hermes_bookkeeping-returns to_io t start count address threshold plans rewards voters p r v h
      converts =
    let (ds, e) = collect-runs to_io converts threshold plans voters rewards h in
    (ds, rw (p, r, v) e)
