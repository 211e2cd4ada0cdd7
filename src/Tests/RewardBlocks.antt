-- ===== src/Tests/RewardBlocks.antt =====
-- The reward index on a block that grants a reward.
use iotex_analytics.Common.{
  ℕ, ◌≡◌, refl, false, none, some, List, [], ◌∷◌, String, string_eq, Go, ok, fold_go, add64, sub64,
  mul64, div64,
}
use iotex_analytics.Epoch.{
  EpochCtx, get_epoch_number, get_epoch_height, early_epoch_number, early_epoch_height,
  fairbank_effective_height,
}
use iotex_analytics.Bookkeeping.Tables.{number}
use iotex_analytics.Store.{World, ◌>>=◌, wrap_error, query, exec, for_each, get_memory, set_memory}
use iotex_analytics.Blocks.Delegates.{Clients}
use iotex_analytics.Rewards.{Rewarding}
use iotex_analytics.RewardTables.{
  block_reward_log, RewardHistory, RewardDb, history_rows, get_reward_info_from_receipt, add_log,
  credit, update_reward_history, rebuild_account_reward_table,
}
use iotex_analytics.RewardTables.Handling.{
  Names, RewardBlock, update_candidate_reward_address, record_rewards, record_receipt, handle_block,
}
use iotex_analytics.RewardTables.Appends.{Extends, handle_block-Extends}

abbrev rewarding : Rewarding
rewarding = record {
  num_delegates_for_epoch_reward = 2;
  num_delegates_for_foundation_bonus = 1;
  productivity_threshold = 50;
  exempt_candidates_from_epoch_reward = [];
}

abbrev epochs_of_two : EpochCtx
epochs_of_two = record {
  num_candidate_delegates = 2;
  num_delegates = 2;
  num_sub_epochs = 1;
  num_sub_epochs_dardanelles = 0;
  dardanelles_height = 0;
  dardanelles_on = false;
  fairbank_height = 1000;
}

abbrev no_candidates : Clients
no_candidates = record {
  Data = ℕ;
  active_block_producers_by_epoch = λ n. ok n;
  deserialize = λ d. ok [];
  gravity_chain_start_height = λ attempt h. ok h;
  parse_uint = λ d. ok d;
  candidates_page = λ h offset limit. ok [];
  election_candidates = λ h. ok [];
  retry = λ n op. op 0;
}

-- Two candidates share the address "x", and the first one is named.
abbrev elected : ℕ → Go (List (String × String))
elected height = ok (("x", "a") ∷ ("x", "b") ∷ [])

abbrev old_row : RewardHistory
old_row = record {
  epoch_number = 1;
  action_hash = "00";
  reward_address = "x";
  candidate_name = "a";
  rewards = record { block_reward = 1; epoch_reward = 0; foundation_bonus = 0 };
}

abbrev new_row : RewardHistory
new_row = record {
  epoch_number = 1;
  action_hash = "01";
  reward_address = "x";
  candidate_name = "a";
  rewards = record { block_reward = 8; epoch_reward = 0; foundation_bonus = 0 };
}

abbrev block_two : RewardBlock
block_two = record {
  height = 2;
  grants = "01" ∷ [];
  receipts =
      record { action_hash = "02"; logs = [] }
      ∷ record {
        action_hash = "01";
        logs = ok (record { log_type = block_reward_log; addr = "x"; amount = number 8 }) ∷ [];
      }
      ∷ [];
}

abbrev restarted : World RewardDb Names
restarted = record {
  db = record {
    reward_history = old_row ∷ [];
    account_reward = [];
    voting_result = [];
    block_history = [];
  };
  memory = none;
  faults = [];
}

-- In the middle of an epoch after a restart: the names are fetched, and the row is written.
abbrev run : Go (Unit {0}) × World RewardDb Names
run = handle_block no_candidates elected rewarding epochs_of_two 5 "ROLLDPOS" block_two restarted

run-returns :
    (run.0 ≡ ok tt)
    × (run.1.db.reward_history ≡ old_row ∷ new_row ∷ [])
    × (run.1.memory ≡ some (("x", "a" ∷ "b" ∷ []) ∷ []))
unfolding handle_block update_candidate_reward_address record_receipt record_rewards
    update_reward_history history_rows get_reward_info_from_receipt add_log credit fold_go
    get_epoch_number get_epoch_height early_epoch_number early_epoch_height
    fairbank_effective_height ◌>>=◌ wrap_error query exec for_each get_memory set_memory add64 sub64
    mul64 div64 rebuild_account_reward_table
run-returns = (refl, refl, refl)

handle_block-Extends_example : Extends restarted.db run.1.db
handle_block-Extends_example =
    handle_block-Extends no_candidates elected rewarding epochs_of_two 5 "ROLLDPOS" block_two
      restarted
