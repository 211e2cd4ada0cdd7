-- ===== src/RewardTables/Rebuild.antt =====
-- rebuildAccountRewardTable: the account rewards of an epoch against its reward history.
use iotex_analytics.Common.{
  ℕ, ◌≤◌, ◌≡◌, inl, inr, Bool, List, [], ◌∷◌, ◌++◌, String, Assoc, nat_eq, string_eq, lookup_or,
  sum_by-append, Go-cases, ok, arith,
}
use iotex_analytics.Store.{World, Run, pure, ◌>>=◌, wrap_error}
use iotex_analytics.Store.Steps.{>>=-ok, wrap_error-ok}
use iotex_analytics.Rewards.{Productivity, Rewarding, Amounts, exemption_map, breakdown_rewards}
use iotex_analytics.Rewards.Breakdown.{paid, breakdown_rewards-conserves}
use iotex_analytics.RewardTables.{RewardDb, VotingInfo, get_productivity, breakdown, reward_rows}

-- A field of the rewards that breakdownRewards does not pay more of than the total.
Kept : (Amounts → ℕ) → Type 0
Kept f =
    (config : Rewarding) (names : List String) (votes : Assoc String ℕ)
    (exemption : Assoc String Bool) (productivity : Assoc String Productivity) (totals : Amounts)
    (m : Assoc String Amounts)
    → breakdown_rewards config names votes exemption (ok productivity) totals ≡ ok m
    → paid f m ≤ f totals

module _ {S : Type 0} (f : Amounts → ℕ) (kept : Kept f) (config : Rewarding) (epoch : ℕ)
    (info : VotingInfo) where
  paid-breakdown :
      (names : List String) (votes : Assoc String ℕ) (totals : Amounts) (w : World RewardDb S)
      (m : Assoc String Amounts)
      → (breakdown config epoch names votes totals w).0 ≡ ok m
      → paid f m ≤ f totals
  unfolding breakdown breakdown_rewards Kept
  paid-breakdown names votes totals w m h =
      elim (Go-cases (wrap_error "failed to get productivity map" (get_productivity epoch) w).0) [
        | inl (p, e) ↦
            kept config names votes (exemption_map config.exempt_candidates_from_epoch_reward) p
              totals m (rw e at h)
        | inr (inl (x, e)) ↦ absurd (ground (arith, e, h))
        | inr (inr (x, e)) ↦ absurd (ground (arith, e, h))
      ]

  -- The rows of one record of the history, by the names that its address has.
  abbrev rows_for : List String → Amounts → Run RewardDb S (Assoc String Amounts)
  rows_for names totals =
      let several =
        wrap_error "failed to get candidate rewards map"
          (breakdown config epoch names info.1 totals) in
      elim names [ [] ↦ several | name ∷ [] ↦ pure ((name, totals) ∷ []) | _ ∷ (_ ∷ _) ↦ several ]

  paid-rows_for :
      (names : List String) (totals : Amounts) (w : World RewardDb S) (m : Assoc String Amounts)
      → (rows_for names totals w).0 ≡ ok m
      → paid f m ≤ f totals
  paid-rows_for [] totals w m h = paid-breakdown [] info.1 totals w m (
      wrap_error-ok "failed to get candidate rewards map" (breakdown config epoch [] info.1 totals)
        w h)
  paid-rows_for (name ∷ []) totals w m h = ground (arith, h)
  paid-rows_for (name ∷ (name' ∷ names)) totals w m h =
      paid-breakdown (name ∷ name' ∷ names) info.1 totals w m (
        wrap_error-ok "failed to get candidate rewards map"
          (breakdown config epoch (name ∷ name' ∷ names) info.1 totals) w h)

  paid-reward_rows :
      (records : Assoc String Amounts) (w : World RewardDb S) (rows : Assoc String Amounts)
      → (reward_rows config epoch info records w).0 ≡ ok rows
      → paid f rows ≤ paid f records
  unfolding reward_rows
  paid-reward_rows [] w rows h = ground (arith, h)
  paid-reward_rows ((address, totals) ∷ records) w rows h =
      let (first, e, rest) =
        >>=-ok (rows_for (lookup_or [] address info.0) totals)
          (λ rows. reward_rows config epoch info records >>= λ more. pure (rows ++ more)) w h in
      let w' = (rows_for (lookup_or [] address info.0) totals w).1 in
      let (more, e', last) =
        >>=-ok (reward_rows config epoch info records) (λ more. pure (first ++ more)) w' rest in
      let is_sum : rows ≡ first ++ more = ground (arith, last) in
      rw is_sum (
        omega (
          arith,
          sum_by-append (λ (p : String × Amounts). f p.1) first more,
          paid-rows_for (lookup_or [] address info.0) totals w first e,
          paid-reward_rows records w' more e',
        ))

-- The rows that rebuildAccountRewardTable inserts for an epoch give, of each kind of reward, at most
-- what the records of the reward history have, however the addresses are shared.
pub reward_rows-conserve :
    {S : Type 0} (config : Rewarding) (epoch : ℕ) (info : VotingInfo)
    (records : Assoc String Amounts) (w : World RewardDb S) (rows : Assoc String Amounts)
    → (reward_rows config epoch info records w).0 ≡ ok rows
    → (paid (λ a. a.block_reward) rows ≤ paid (λ a. a.block_reward) records)
      × (paid (λ a. a.epoch_reward) rows ≤ paid (λ a. a.epoch_reward) records)
      × (paid (λ a. a.foundation_bonus) rows ≤ paid (λ a. a.foundation_bonus) records)
unfolding Kept
reward_rows-conserve config epoch info records w rows h = (
  paid-reward_rows (λ a. a.block_reward)
      (λ c n v e p t m k. (breakdown_rewards-conserves c n v e p t m k).0) config epoch info records
      w rows h,
  paid-reward_rows (λ a. a.epoch_reward)
      (λ c n v e p t m k. (breakdown_rewards-conserves c n v e p t m k).1) config epoch info records
      w rows h,
  paid-reward_rows (λ a. a.foundation_bonus)
      (λ c n v e p t m k. (breakdown_rewards-conserves c n v e p t m k).2) config epoch info records
      w rows h,
)
