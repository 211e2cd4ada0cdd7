-- ===== src/Blocks.antt =====
-- indexprotocol/blocks/protocol.go: a row for each block, and the productivity of the delegates of an
-- epoch. The chain client and the election client are code outside the repository: the record
-- `Clients` has their answers. A table with a unique key is a map by that key.
pub mod Delegates
pub mod Counting
pub mod Memory
pub mod Rows
pub mod Recorded
pub mod Production
pub mod Indexing
use iotex_analytics.Common.{
  ℕ, zero, suc, ◌+◌, ◌-◌, ◌%◌, Bool, true, false, ◌&&◌, ◌||◌, Option, none, some, List, [], ◌∷◌,
  ◌++◌, String, of_bytes, Assoc, nat_eq, string_eq, lookup, lookup_or, insert, add_to, length,
  get_elem?, Go, ok, err, abort, foreign, panic, add64, sub64, u64, ltb, ◌==◌, str_eq,
  if◌then◌else◌,
}
use iotex_analytics.Epoch.{EpochCtx, get_epoch_number, get_epoch_height}
use iotex_analytics.Store.{World, Run, pure, lift, ◌>>=◌, ◌>>◌, exec, get_memory, wrap_error}
use iotex_analytics.DelegateName.Hex.{hex_encode}
use iotex_analytics.Accounts.{insert_ignore}
use iotex_analytics.Rewards.{Productivity}
use iotex_analytics.RewardTables.{join_production}
use Delegates.{Producers, Clients, update_delegates}

-- The type switch of HandleBlock.
pub data Action : Type 0 where
  transfer execution deposit_to_rewarding_fund claim_from_rewarding_fund grant_reward : Action
  create_stake unstake withdraw_stake deposit_to_stake restake change_candidate : Action
  transfer_stake candidate_register candidate_update put_poll_result : Action
  other_action : ℕ → Action

pub record Counts : Type 0 where
  pub transfer_count : ℕ
  pub execution_count : ℕ
  pub deposit_to_rewarding_fund_count : ℕ
  pub claim_from_rewarding_fund_count : ℕ
  pub grant_reward_count : ℕ
  pub put_poll_result_count : ℕ
  pub stake_create_count : ℕ
  pub stake_unstake_count : ℕ
  pub stake_withdraw_count : ℕ
  pub stake_add_deposit_count : ℕ
  pub stake_restake_count : ℕ
  pub stake_change_candidate_count : ℕ
  pub stake_transfer_ownership_count : ℕ
  pub candidate_register_count : ℕ
  pub candidate_update_count : ℕ

abbrev pub no_counts : Counts
no_counts = record {
  transfer_count = 0;
  execution_count = 0;
  deposit_to_rewarding_fund_count = 0;
  claim_from_rewarding_fund_count = 0;
  grant_reward_count = 0;
  put_poll_result_count = 0;
  stake_create_count = 0;
  stake_unstake_count = 0;
  stake_withdraw_count = 0;
  stake_add_deposit_count = 0;
  stake_restake_count = 0;
  stake_change_candidate_count = 0;
  stake_transfer_ownership_count = 0;
  candidate_register_count = 0;
  candidate_update_count = 0;
}

unfoldable pub count_action : Action → Counts → Counts
count_action transfer c = record c { transfer_count = add64 c.transfer_count 1 }
count_action execution c = record c { execution_count = add64 c.execution_count 1 }
count_action deposit_to_rewarding_fund c = record c {
  deposit_to_rewarding_fund_count = add64 c.deposit_to_rewarding_fund_count 1;
}
count_action claim_from_rewarding_fund c = record c {
  claim_from_rewarding_fund_count = add64 c.claim_from_rewarding_fund_count 1;
}
count_action grant_reward c = record c { grant_reward_count = add64 c.grant_reward_count 1 }
count_action create_stake c = record c { stake_create_count = add64 c.stake_create_count 1 }
count_action unstake c = record c { stake_unstake_count = add64 c.stake_unstake_count 1 }
count_action withdraw_stake c = record c { stake_withdraw_count = add64 c.stake_withdraw_count 1 }
count_action deposit_to_stake c = record c {
  stake_add_deposit_count = add64 c.stake_add_deposit_count 1;
}
count_action restake c = record c { stake_restake_count = add64 c.stake_restake_count 1 }
count_action change_candidate c = record c {
  stake_change_candidate_count = add64 c.stake_change_candidate_count 1;
}
count_action transfer_stake c = record c {
  stake_transfer_ownership_count = add64 c.stake_transfer_ownership_count 1;
}
count_action candidate_register c = record c {
  candidate_register_count = add64 c.candidate_register_count 1;
}
count_action candidate_update c = record c {
  candidate_update_count = add64 c.candidate_update_count 1;
}
count_action put_poll_result c = record c {
  put_poll_result_count = add64 c.put_poll_result_count 1;
}
count_action (other_action n) c = c

-- `for _, selp := range blk.Actions`
unfoldable pub count_actions : List Action → Counts → Counts
unfolding count_action
count_actions [] c = c
count_actions (a ∷ acts) c = count_actions acts (count_action a c)

-- `for _, receipt := range blk.Receipts`, over the gas of the receipts
unfoldable pub gas_consumed : List ℕ → ℕ → ℕ
gas_consumed [] gas = gas
gas_consumed (g ∷ gs) gas = gas_consumed gs (add64 gas g)

pub record Block : Type 0 where
  pub height : ℕ
  pub hash : List ℕ
  pub actions : List Action
  pub receipts : List ℕ
  pub producer_address : String
  pub timestamp : ℕ

pub record BlockHistory : Type 0 where
  pub epoch_number : ℕ
  pub block_height : ℕ
  pub block_hash : String
  pub counts : Counts
  pub gas : ℕ
  pub producer_address : String
  pub producer_name : String
  pub expected_producer_address : String
  pub expected_producer_name : String
  pub timestamp : ℕ

-- The tables of the protocol.
pub record Blocks : Type 0 where
  pub block_history : List BlockHistory
  pub expected_producer_history : Assoc ℕ (Assoc String ℕ)
  pub producer_history : Assoc ℕ (Assoc String ℕ)
  pub productivity_history : Assoc ℕ (Assoc String Productivity)

abbrev pub has_height : ℕ → List BlockHistory → Bool
has_height height [] = false
has_height height (r ∷ rs) =
    let rest = has_height height rs in if r.block_height == height then true else rest

-- The primary key of block_history is block_height.
unfoldable pub insert_block_history : BlockHistory → Blocks → Go Blocks
insert_block_history row db = elim (has_height row.block_height db.block_history) [
  | true ↦ err (foreign 1062)
  | false ↦ ok (record db { block_history = db.block_history ++ row ∷ [] })
]

-- COUNT of the rows of an epoch, grouped by a name.
unfoldable pub count_rows : (BlockHistory → String) → ℕ → List BlockHistory → Assoc String ℕ
count_rows key epoch [] = []
count_rows key epoch (r ∷ rs) =
    let rest = count_rows key epoch rs in
    if r.epoch_number == epoch then add_to (key r) 1 rest else rest

unfoldable pub insert_expected_producer : ℕ → Blocks → Blocks
unfolding count_rows insert_ignore
insert_expected_producer epoch db = record db {
  expected_producer_history =
      insert epoch
        (insert_ignore (count_rows (λ r. r.expected_producer_name) epoch db.block_history)
          (lookup_or [] epoch db.expected_producer_history))
        db.expected_producer_history;
}

unfoldable pub insert_producer : ℕ → Blocks → Blocks
unfolding count_rows insert_ignore
insert_producer epoch db = record db {
  producer_history =
      insert epoch
        (insert_ignore (count_rows (λ r. r.producer_name) epoch db.block_history)
          (lookup_or [] epoch db.producer_history))
        db.producer_history;
}

-- The expected counts, left joined with the counts of produced blocks.
unfoldable pub insert_productivity : ℕ → Blocks → Blocks
unfolding join_production insert_ignore
insert_productivity epoch db = record db {
  productivity_history =
      insert epoch
        (insert_ignore
          (join_production (lookup_or [] epoch db.producer_history)
            (lookup_or [] epoch db.expected_producer_history))
          (lookup_or [] epoch db.productivity_history))
        db.productivity_history;
}

unfoldable pub rebuild_productivity_table : ℕ → Run Blocks Producers (Unit {0})
unfolding insert_expected_producer insert_producer insert_productivity
rebuild_productivity_table zero = pure tt
rebuild_productivity_table (suc n) = exec (λ db. ok (insert_expected_producer (suc n) db)) >>= λ _.
    exec (λ db. ok (insert_producer (suc n) db)) >>= λ _.
    exec (λ db. ok (insert_productivity (suc n) db))

-- `int(height) % n` as an index: an int has 64 bits, and the remainder of a negative one is not
-- positive.
unfoldable pub producer_index : ℕ → ℕ → Go ℕ
producer_index height n =
    if ltb height 9223372036854775808
    then ok (height % n)
    else if (u64 - height) % n == 0
    then ok 0
    else panic

unfoldable pub expected_producer : ℕ → List String → Go String
unfolding producer_index
expected_producer height [] = ok ""
expected_producer height (p ∷ ps) = elim (producer_index height (length (p ∷ ps))) [
  | ok i ↦ elim (get_elem? (p ∷ ps) i) [ some a ↦ ok a | none ↦ panic ]
  | err e ↦ err e
  | abort x ↦ abort x
]

-- A read of the map, which may be nil.
unfoldable pub operator_name : Producers → String → String
operator_name m a = elim m.operator_addr_to_name [ none ↦ "" | some names ↦ lookup_or "" a names ]

unfoldable pub update_block_history : BlockHistory → Run Blocks Producers (Unit {0})
unfolding insert_block_history
update_block_history row = exec (insert_block_history row)

abbrev pub is_nil : Producers → Bool
is_nil m = elim m.operator_addr_to_name [ none ↦ true | some _ ↦ false ]

-- The row of a block, by its epoch number, the memory and the address of its expected producer.
abbrev pub block_row : ℕ → Block → Producers → String → BlockHistory
block_row epoch blk m expected = record {
  epoch_number = epoch;
  block_height = blk.height;
  block_hash = of_bytes (hex_encode blk.hash);
  counts = count_actions blk.actions no_counts;
  gas = gas_consumed blk.receipts 0;
  producer_address = blk.producer_address;
  producer_name = operator_name m blk.producer_address;
  expected_producer_address = expected;
  expected_producer_name = operator_name m expected;
  timestamp = blk.timestamp;
}

-- HandleBlock after the special handling of the start of an epoch.
unfoldable pub record_block : ℕ → Block → Run Blocks Producers (Unit {0})
unfolding count_actions gas_consumed expected_producer operator_name update_block_history hex_encode
record_block epoch blk = get_memory >>= λ m.
    lift (expected_producer blk.height m.active_block_producers) >>= λ expected.
    update_block_history (block_row epoch blk m expected)

unfoldable pub handle_block :
    Clients → EpochCtx → ℕ → String → Block → Run Blocks Producers (Unit {0})
unfolding get_epoch_number get_epoch_height update_delegates rebuild_productivity_table record_block
handle_block clients ctx gravity_start scheme blk =
    lift (get_epoch_number ctx blk.height) >>= λ epoch.
    lift (get_epoch_height ctx epoch) >>= λ start. get_memory >>= λ m.
    (if str_eq scheme "ROLLDPOS" && (blk.height == start || is_nil m)
      then wrap_error "failed to update delegates in epoch"
          (update_delegates clients ctx gravity_start blk.height epoch)
      else pure tt)
    >>= λ _.
        (if blk.height == start
          then wrap_error "failed to rebuild productivity table"
              (rebuild_productivity_table (sub64 epoch 1))
          else pure tt)
        >>= λ _. record_block epoch blk
