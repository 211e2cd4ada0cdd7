-- ===== src/RewardTables/Reads.antt =====
-- The reading steps of rebuildAccountRewardTable write nothing.
use iotex_analytics.Common.{ℕ, List, [], ◌∷◌, String, Assoc, string_eq, lookup_or}
use iotex_analytics.Store.{Run, pure}
use iotex_analytics.Store.Keeps.{Keeps, query-Keeps, wrap_error-Keeps, >>=-Keeps}
use iotex_analytics.Rewards.{Rewarding, Amounts}
use iotex_analytics.RewardTables.{
  RewardDb, VotingInfo, get_productivity, get_voting_info, breakdown, reward_rows,
}

module _ {S : Type 0} (P : RewardDb → Type 0) where
  pub get_voting_info-Keeps : (epoch : ℕ) → Keeps P (get_voting_info {S = S} epoch)
  unfolding get_voting_info
  get_voting_info-Keeps epoch =
      >>=-Keeps P _ _ (wrap_error-Keeps P _ _ (query-Keeps P _)) (λ rows w u. u)

  breakdown-Keeps :
      (config : Rewarding) (epoch : ℕ) (names : List String) (votes : Assoc String ℕ)
      (totals : Amounts)
      → Keeps P (breakdown {S = S} config epoch names votes totals)
  unfolding breakdown get_productivity
  breakdown-Keeps config epoch names votes totals =
      wrap_error-Keeps P "failed to get productivity map" (get_productivity epoch) (
        >>=-Keeps P _ _ (wrap_error-Keeps P _ _ (query-Keeps P _))
          (λ _. >>=-Keeps P _ _ (wrap_error-Keeps P _ _ (query-Keeps P _)) (λ rows w u. u)))

  -- The step of one record, by the names of its address.
  several-Keeps :
      (names : List String) (several : Run RewardDb S (Assoc String Amounts)) (totals : Amounts)
      → Keeps P several
      → Keeps P (elim names [
        | [] ↦ several
        | name ∷ [] ↦ pure ((name, totals) ∷ [])
        | _ ∷ (_ ∷ _) ↦ several
      ])
  several-Keeps [] several totals h = h
  several-Keeps (name ∷ []) several totals h = λ w u. u
  several-Keeps (name ∷ other ∷ names) several totals h = h

  pub reward_rows-Keeps :
      (config : Rewarding) (epoch : ℕ) (info : VotingInfo) (records : Assoc String Amounts)
      → Keeps P (reward_rows {S = S} config epoch info records)
  unfolding reward_rows
  reward_rows-Keeps config epoch info [] = λ w u. u
  reward_rows-Keeps config epoch info ((address, totals) ∷ records) =
      let rest = reward_rows-Keeps config epoch info records in
      >>=-Keeps P _ _
        (several-Keeps (lookup_or [] address info.0) _ totals (
          wrap_error-Keeps P _ _
            (breakdown-Keeps config epoch (lookup_or [] address info.0) info.1 totals)))
        (λ rows. >>=-Keeps P _ _ rest (λ more w u. u))
