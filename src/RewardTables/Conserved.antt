-- ===== src/RewardTables/Conserved.antt =====
-- rebuildAccountRewardTable: the account rewards that it stores, against the reward history.
use iotex_analytics.Common.{
  ℕ, suc, ◌+◌, ◌≤◌, ◌≡◌, ◌∙◌, ap, refl, inl, inr, Option-cases, none, List, [], ◌∷◌, String, Assoc,
  nat_eq, string_eq, lookup, lookup_or, insert, lookup-insert_self, sum_by, ok, ◌==◌, if◌then◌else◌,
  arith,
}
use iotex_analytics.Store.{World, Run, pure, ◌>>=◌, exec, query, wrap_error}
use iotex_analytics.Store.Steps.{>>=-ok, >>=-then, exec-ok, query-ok, wrap_error-ok}
use iotex_analytics.Store.Keeps.{query-Keeps, wrap_error-Keeps}
use iotex_analytics.Rewards.{Rewarding, Amounts}
use iotex_analytics.Rewards.Breakdown.{paid, paid-insert}
use iotex_analytics.RewardTables.{
  RewardHistory, RewardDb, VotingInfo, no_amounts, plus, reward_history_group, ignore_all,
  insert_account_reward, get_voting_info, reward_rows, rebuild_account_reward_table,
}
use iotex_analytics.RewardTables.Receipts.{paid-replace}
use iotex_analytics.RewardTables.Rebuild.{reward_rows-conserve}
use iotex_analytics.RewardTables.Reads.{get_voting_info-Keeps, reward_rows-Keeps}

-- What the rows of an epoch in the reward history have of a kind of reward.
abbrev pub granted : (Amounts → ℕ) → ℕ → List RewardHistory → ℕ
granted f epoch = sum_by (λ (r : RewardHistory). if r.epoch_number == epoch then f r.rewards else 0)

-- The account rewards that are stored for an epoch.
abbrev pub stored : ℕ → RewardDb → Assoc String Amounts
stored epoch db = lookup_or [] epoch db.account_reward

paid-reward_history_group :
    (f : Amounts → ℕ) (epoch : ℕ) (rows : List RewardHistory)
    → f no_amounts ≡ 0
    → ((a b : Amounts) → f (plus a b) ≡ f a + f b)
    → paid f (reward_history_group epoch rows) ≡ granted f epoch rows
unfolding reward_history_group
paid-reward_history_group f epoch [] z p = refl
paid-reward_history_group f epoch (r ∷ rows) z p =
    let rest = reward_history_group epoch rows in
    let had = lookup_or no_amounts r.reward_address rest in
    ground (
      arith,
      paid-reward_history_group f epoch rows z p,
      paid-replace f r.reward_address (plus had r.rewards) rest z,
      p had r.rewards,
    )

paid-ignore_all :
    (f : Amounts → ℕ) (rows m : Assoc String Amounts)
    → paid f (ignore_all rows m) ≤ paid f m + paid f rows
paid-ignore_all f [] m = omega arith
paid-ignore_all f ((name, a) ∷ rows) m = elim (Option-cases (lookup name m)) [
  | inl new ↦
      rw new (omega (arith, paid-ignore_all f rows (insert name a m), paid-insert f name a m))
  | inr (b, there) ↦ rw there (omega (arith, paid-ignore_all f rows m))
]

insert_account_reward-stored :
    (epoch : ℕ) (rows : Assoc String Amounts) (db db' : RewardDb)
    → lookup epoch db.account_reward ≡ none
    → insert_account_reward epoch rows db ≡ ok db'
    → stored epoch db' ≡ ignore_all rows []
unfolding insert_account_reward
insert_account_reward-stored epoch [] db db' new e = absurd (ground (arith, e))
insert_account_reward-stored epoch (row ∷ rows) db db' new e =
    let kept = ignore_all (row ∷ rows) (lookup_or [] epoch db.account_reward) in
    let written : insert epoch kept db.account_reward ≡ db'.account_reward = ground (arith, e) in
    let none_there : lookup_or [] epoch db.account_reward ≡ [] = rw (new, lookup_or) refl in
    rw (← written, lookup_or)
      (rw (lookup-insert_self epoch kept db.account_reward)
        (ap (λ m. ignore_all (row ∷ rows) m) none_there))

-- Of each kind of reward at most what the other has.
abbrev AtMost : Assoc String Amounts → Assoc String Amounts → Type 0
AtMost rows records =
    (paid (λ a. a.block_reward) rows ≤ paid (λ a. a.block_reward) records)
    × (paid (λ a. a.epoch_reward) rows ≤ paid (λ a. a.epoch_reward) records)
    × (paid (λ a. a.foundation_bonus) rows ≤ paid (λ a. a.foundation_bonus) records)

module _ {S : Type 0} (config : Rewarding) (epoch : ℕ) where
  abbrev insert_rebuilt : VotingInfo → Assoc String Amounts → Run RewardDb S (Unit {0})
  insert_rebuilt info records = elim records [
    | [] ↦ pure tt
    | record_ ∷ more ↦ reward_rows config epoch info (record_ ∷ more) >>= λ rows.
        exec (insert_account_reward epoch rows)
  ]

  insert_rebuilt-AtMost :
      (info : VotingInfo) (records : Assoc String Amounts) (w : World RewardDb S)
      → lookup epoch w.db.account_reward ≡ none
      → (insert_rebuilt info records w).0 ≡ ok tt
      → AtMost (stored epoch (insert_rebuilt info records w).1.db) records
  insert_rebuilt-AtMost info [] w new h =
      rw (new, lookup_or) (omega arith, omega arith, omega arith)
  insert_rebuilt-AtMost info (record_ ∷ more) w new h =
      let read = reward_rows config epoch info (record_ ∷ more) in
      let write : Assoc String Amounts → Run RewardDb S (Unit {0}) =
        λ rows. exec (insert_account_reward epoch rows) in
      let (rows, given, inserted) = >>=-ok read write w h in
      let w' = (read w).1 in
      let new' : lookup epoch w'.db.account_reward ≡ none =
        reward_rows-Keeps (λ db. lookup epoch db.account_reward ≡ none) config epoch info
          (record_ ∷ more) w new in
      let are : stored epoch (insert_rebuilt info (record_ ∷ more) w).1.db ≡ ignore_all rows [] =
        ap (λ q. stored epoch q.1.db) (>>=-then read write w rows given)
        ∙ insert_account_reward-stored epoch rows w'.db (write rows w').1.db new'
            (exec-ok (insert_account_reward epoch rows) w' inserted) in
      let (block, of_epoch, bonus) =
        reward_rows-conserve config epoch info (record_ ∷ more) w rows given in
      rw are (
        omega (arith, paid-ignore_all (λ a. a.block_reward) rows [], block),
        omega (arith, paid-ignore_all (λ a. a.epoch_reward) rows [], of_epoch),
        omega (arith, paid-ignore_all (λ a. a.foundation_bonus) rows [], bonus),
      )

-- When rebuildAccountRewardTable returns nil for an epoch from 1 on of which no row was stored, the account
-- rewards stored for it give, of each kind of reward, at most what the rows of that epoch in the reward
-- history have, however the addresses are shared.
pub rebuild_account_reward_table-conserve :
    {S : Type 0} (config : Rewarding) (n : ℕ) (w : World RewardDb S)
    → lookup (suc n) w.db.account_reward ≡ none
    → (rebuild_account_reward_table config (suc n) w).0 ≡ ok tt
    → (paid
          (λ a. a.block_reward)
          (stored (suc n) (rebuild_account_reward_table config (suc n) w).1.db)
        ≤ granted (λ a. a.block_reward) (suc n) w.db.reward_history)
      × (paid
            (λ a. a.epoch_reward)
            (stored (suc n) (rebuild_account_reward_table config (suc n) w).1.db)
          ≤ granted (λ a. a.epoch_reward) (suc n) w.db.reward_history)
      × (paid
            (λ a. a.foundation_bonus)
            (stored (suc n) (rebuild_account_reward_table config (suc n) w).1.db)
          ≤ granted (λ a. a.foundation_bonus) (suc n) w.db.reward_history)
unfolding rebuild_account_reward_table
rebuild_account_reward_table-conserve {S} config n w new h =
    let epoch = suc n in
    let voting : Run RewardDb S VotingInfo =
      wrap_error "failed to get voting info" (get_voting_info epoch) in
    let history : RewardDb → Assoc String Amounts =
      λ db. reward_history_group epoch db.reward_history in
    let reading : Run RewardDb S (Assoc String Amounts) =
      wrap_error "failed to get reward history query" (query history) in
    let then_info : VotingInfo → Run RewardDb S (Unit {0}) =
      λ info. reading >>= insert_rebuilt config epoch info in
    let (info, voted, rest) = >>=-ok voting then_info w h in
    let w₁ = (voting w).1 in
    let same₁ : w₁.db ≡ w.db =
      wrap_error-Keeps (λ db. db ≡ w.db) "failed to get voting info" (get_voting_info epoch)
        (get_voting_info-Keeps (λ db. db ≡ w.db) epoch) w refl in
    let (records, read, inserted) = >>=-ok reading (insert_rebuilt config epoch info) w₁ rest in
    let w₂ = (reading w₁).1 in
    let same₂ : w₂.db ≡ w.db =
      wrap_error-Keeps (λ db. db ≡ w.db) "failed to get reward history query" (query history)
        (query-Keeps (λ db. db ≡ w.db) history) w₁ same₁ in
    let (are, _) =
      query-ok history w₁ records
        (wrap_error-ok "failed to get reward history query" (query history) w₁ read) in
    let records_are : records ≡ history w.db = are ∙ ap history same₁ in
    let new₂ : lookup epoch w₂.db.account_reward ≡ none = rw same₂ new in
    let (block, of_epoch, bonus) =
      insert_rebuilt-AtMost config epoch info records w₂ new₂ inserted in
    let ran : rebuild_account_reward_table config epoch w
        ≡ insert_rebuilt config epoch info records w₂ =
      >>=-then voting then_info w info voted
      ∙ >>=-then reading (insert_rebuilt config epoch info) w₁ records read in
    let sum : (f : Amounts → ℕ)
        → f no_amounts ≡ 0
        → ((a b : Amounts) → f (plus a b) ≡ f a + f b)
        → paid f records ≡ granted f epoch w.db.reward_history =
      λ f z p.
        ap (paid f) records_are ∙ paid-reward_history_group f epoch w.db.reward_history z p in
    rw ran (
      omega (arith, block, sum (λ a. a.block_reward) refl (λ a b. refl)),
      omega (arith, of_epoch, sum (λ a. a.epoch_reward) refl (λ a b. refl)),
      omega (arith, bonus, sum (λ a. a.foundation_bonus) refl (λ a b. refl)),
    )
