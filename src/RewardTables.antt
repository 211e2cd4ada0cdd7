-- ===== src/RewardTables.antt =====
-- indexprotocol/rewards/protocol.go: the rewards of a block's receipts in the reward history, and the
-- account rewards of an epoch, which are rebuilt from it. The rows of a table with a unique key are a
-- map by that key. proto.Unmarshal is code outside the repository: its answers are given.
pub mod Receipts
pub mod Rebuild
pub mod Reads
pub mod Conserved
pub mod Handling
pub mod Appends
use iotex_analytics.Common.{
  keep, ℕ, zero, suc, ◌+◌, Bool, true, false, Option, none, some, List, [], ◌∷◌, ◌++◌, String,
  Assoc, nat_eq, string_eq, lookup, lookup_or, insert, add_to, Go, ok, err, abort, exit, message,
  foreign, not_exist, bind_go, wrapped, fold_go, ◌==◌, if◌then◌else◌,
}
use iotex_analytics.Store.{World, Run, pure, lift, ◌>>=◌, ◌>>◌, exec, query, wrap_error}
use iotex_analytics.Bookkeeping.Tables.{
  Text, number, malformed, VotingResult, string_to_big_int, non_empty,
}
use iotex_analytics.Rewards.{Productivity, Rewarding, Amounts, exemption_map, breakdown_rewards}

pub data RewardType : Type 0 where
  block_reward_log epoch_reward_log foundation_bonus_log : RewardType
  unknown_log : ℕ → RewardType

pub record RewardLog : Type 0 where
  pub log_type : RewardType
  pub addr : String
  pub amount : Text

abbrev pub no_amounts : Amounts
no_amounts = record { block_reward = 0; epoch_reward = 0; foundation_bonus = 0 }

-- The reward of one log on top of what its address has. A text that is no number and an unknown type
-- end the process.
unfoldable pub credit : RewardLog → Amounts → Go Amounts
credit log a = elim log.amount [
  | malformed ↦ exit
  | number n ↦ elim log.log_type [
    | block_reward_log ↦ ok (record a { block_reward = a.block_reward + n })
    | epoch_reward_log ↦ ok (record a { epoch_reward = a.epoch_reward + n })
    | foundation_bonus_log ↦ ok (record a { foundation_bonus = a.foundation_bonus + n })
    | unknown_log _ ↦ exit
  ]
]

unfoldable pub add_log : Assoc String Amounts → Go RewardLog → Go (Assoc String Amounts)
unfolding credit
add_log m answer =
    bind_go (wrapped "failed to unmarshal receipt data into reward log" answer) (λ log.
      bind_go (credit log (lookup_or no_amounts log.addr m)) (λ a. ok (insert log.addr a m)))

unfoldable pub get_reward_info_from_receipt : List (Go RewardLog) → Go (Assoc String Amounts)
unfolding add_log
get_reward_info_from_receipt logs = fold_go add_log [] logs

pub record RewardHistory : Type 0 where
  pub epoch_number : ℕ
  pub action_hash : String
  pub reward_address : String
  pub candidate_name : String
  pub rewards : Amounts

-- A row of block_history, as far as the query on productivity reads it.
pub record BlockHistory : Type 0 where
  pub epoch_number : ℕ
  pub producer_name : String
  pub expected_producer_name : String

pub record RewardDb : Type 0 where
  pub reward_history : List RewardHistory
  pub account_reward : Assoc ℕ (Assoc String Amounts)
  pub voting_result : List VotingResult
  pub block_history : List BlockHistory

-- The rows of one receipt. Of the candidates that share an address the first one is named.
unfoldable pub history_rows :
    ℕ → String → Assoc String (List String) → Assoc String Amounts → List RewardHistory
history_rows epoch hash names [] = []
history_rows epoch hash names ((address, rewards) ∷ m) =
    record {
      epoch_number = epoch;
      action_hash = hash;
      reward_address = address;
      candidate_name = elim (lookup_or [] address names) [ [] ↦ "" | name ∷ _ ↦ name ];
      rewards = rewards;
    }
    ∷ history_rows epoch hash names m

abbrev pub plus : Amounts → Amounts → Amounts
plus a b = record {
  block_reward = a.block_reward + b.block_reward;
  epoch_reward = a.epoch_reward + b.epoch_reward;
  foundation_bonus = a.foundation_bonus + b.foundation_bonus;
}

-- SUM of the rewards of an epoch, grouped by the address.
unfoldable pub reward_history_group : ℕ → List RewardHistory → Assoc String Amounts
reward_history_group epoch [] = []
reward_history_group epoch (r ∷ rs) =
    let rest = reward_history_group epoch rs in
    if r.epoch_number == epoch
    then insert r.reward_address (plus (lookup_or no_amounts r.reward_address rest) r.rewards) rest
    else rest

-- What is read of the voting result: the names by reward address, and the votes by name.
abbrev pub VotingInfo : Type 0
VotingInfo = Assoc String (List String) × Assoc String ℕ

unfoldable pub add_voting_result : VotingInfo → VotingResult → Go VotingInfo
add_voting_result (names, votes) row =
    bind_go
      (wrapped "failed to covert string to big int" (string_to_big_int row.total_weighted_votes))
      (λ n. ok (
        insert row.reward_address (lookup_or [] row.reward_address names ++ row.delegate_name ∷ [])
            names,
        insert row.delegate_name n votes,
      ))

-- COUNT of the rows of an epoch, grouped by a name.
unfoldable pub count_by : (BlockHistory → String) → ℕ → List BlockHistory → Assoc String ℕ
count_by key epoch [] = []
count_by key epoch (r ∷ rs) =
    let rest = count_by key epoch rs in
    if r.epoch_number == epoch then add_to (key r) 1 rest else rest

-- The left join of the expected counts with the counts of produced blocks.
unfoldable pub join_production : Assoc String ℕ → Assoc String ℕ → Assoc String Productivity
join_production produced [] = []
join_production produced ((name, expected) ∷ m) =
    (name, record { production = lookup_or 0 name produced; expected_production = expected })
    ∷ join_production produced m

-- INSERT IGNORE of rows by candidate name.
abbrev pub ignore_all : Assoc String Amounts → Assoc String Amounts → Assoc String Amounts
ignore_all [] m = m
ignore_all ((name, a) ∷ rows) m =
    ignore_all rows (elim (lookup name m) [ none ↦ insert name a m | some _ ↦ m ])

-- INSERT IGNORE. Without a row, the statement ends in VALUES, and the database refuses it.
unfoldable pub insert_account_reward : ℕ → Assoc String Amounts → RewardDb → Go RewardDb
insert_account_reward epoch [] db = err (foreign 1064)
insert_account_reward epoch (row ∷ rows) db = ok (record db {
  account_reward =
      insert epoch (ignore_all (row ∷ rows) (lookup_or [] epoch db.account_reward))
        db.account_reward;
})

module _ {S : Type 0} where
  unfoldable pub update_reward_history :
      ℕ → String → Assoc String (List String) → Assoc String Amounts → Run RewardDb S (Unit {0})
  unfolding history_rows
  update_reward_history epoch hash names rewards = exec (λ (db : RewardDb).
      ok
        (record db { reward_history = db.reward_history ++ history_rows epoch hash names rewards }))

  unfoldable pub get_voting_info : ℕ → Run RewardDb S VotingInfo
  unfolding add_voting_result
  get_voting_info epoch =
      wrap_error "failed to get voting result query" (
        query (λ (db : RewardDb).
          keep (λ (r : VotingResult). r.epoch_number == epoch) db.voting_result))
      >>= λ rows. lift (bind_go (non_empty rows) (λ rows. fold_go add_voting_result ([], []) rows))

  -- The rows of the epoch before are committed when this is called: the connection sees what the
  -- transaction sees.
  unfoldable pub get_productivity : ℕ → Run RewardDb S (Assoc String Productivity)
  unfolding count_by join_production
  get_productivity epoch =
      wrap_error "failed to prepare get query" (query (λ (db : RewardDb). tt {0})) >>= λ _.
      wrap_error "failed to execute get query" (
        query (λ (db : RewardDb).
          join_production (count_by (λ r. r.producer_name) epoch db.block_history)
            (count_by (λ r. r.expected_producer_name) epoch db.block_history)))
      >>= λ rows. lift (non_empty rows)

  -- breakdownRewards, which asks for the productivity first.
  unfoldable pub breakdown :
      Rewarding → ℕ → List String → Assoc String ℕ → Amounts → Run RewardDb S (Assoc String Amounts)
  unfolding get_productivity breakdown_rewards
  breakdown config epoch names votes totals w =
      let (r, w') = wrap_error "failed to get productivity map" (get_productivity epoch) w in
      (
        breakdown_rewards config names votes
            (exemption_map config.exempt_candidates_from_epoch_reward) r totals,
        w',
      )

  -- The rows to insert: one record of the history after the other.
  unfoldable pub reward_rows :
      Rewarding → ℕ → VotingInfo → Assoc String Amounts → Run RewardDb S (Assoc String Amounts)
  unfolding breakdown
  reward_rows config epoch info [] = pure []
  reward_rows config epoch info ((address, totals) ∷ records) =
      let rest = reward_rows config epoch info records in
      let several =
        wrap_error "failed to get candidate rewards map"
          (breakdown config epoch (lookup_or [] address info.0) info.1 totals) in
      elim (lookup_or [] address info.0) [
        | [] ↦ several
        | name ∷ [] ↦ pure ((name, totals) ∷ [])
        | _ ∷ (_ ∷ _) ↦ several
      ]
      >>= λ rows. rest >>= λ more. pure (rows ++ more)

  unfoldable pub rebuild_account_reward_table : Rewarding → ℕ → Run RewardDb S (Unit {0})
  unfolding get_voting_info reward_rows insert_account_reward reward_history_group
  rebuild_account_reward_table config zero = pure tt
  rebuild_account_reward_table config (suc n) =
      wrap_error "failed to get voting info" (get_voting_info (suc n)) >>= λ info.
      wrap_error "failed to get reward history query"
        (query (λ (db : RewardDb). reward_history_group (suc n) db.reward_history))
      >>= λ records. elim records [
        | [] ↦ pure tt
        | record_ ∷ more ↦ reward_rows config (suc n) info (record_ ∷ more) >>= λ rows.
            exec (insert_account_reward (suc n) rows)
      ]
