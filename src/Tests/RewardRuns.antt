-- ===== src/Tests/RewardRuns.antt =====
-- Rewards of an address that two delegates share.
use iotex_analytics.Common.{
  ℕ, ◌≤◌, ◌≡◌, refl, true, List, [], ◌∷◌, String, Assoc, string_eq, Go, ok, sum_by, fold_go, mul64,
  div64, quo, arith,
}
use iotex_analytics.Bookkeeping.Tables.{
  number, Percentage, VotingResult, string_to_big_int, non_empty,
}
use iotex_analytics.Store.{World, exec, ◌>>=◌, wrap_error, query}
use iotex_analytics.Rewards.{
  Productivity, Rewarding, Amounts, breakdown_rewards, qualify, is_productive, qualify_epoch,
  qualify_bonus, count_production, give_share, share, block_share, epoch_share, bonus_share, give,
  candidate_rank, exemption_map,
}
use iotex_analytics.Rewards.Breakdown.{
  IsComplete, paid, breakdown_rewards-conserves, breakdown_rewards-returns,
}
use iotex_analytics.RewardTables.{
  RewardLog, block_reward_log, epoch_reward_log, get_reward_info_from_receipt, RewardDb,
  BlockHistory, reward_rows, rebuild_account_reward_table, get_voting_info, add_voting_result,
  reward_history_group, insert_account_reward, RewardHistory, breakdown, get_productivity, count_by,
  join_production, add_log, credit,
}
use iotex_analytics.RewardTables.Receipts.{all_of, worth, paid-get_reward_info_from_receipt}
use iotex_analytics.RewardTables.Conserved.{stored, rebuild_account_reward_table-conserve}

abbrev rewarding : Rewarding
rewarding = record {
  num_delegates_for_epoch_reward = 2;
  num_delegates_for_foundation_bonus = 1;
  productivity_threshold = 50;
  exempt_candidates_from_epoch_reward = [];
}

abbrev votes : Assoc String ℕ
votes = ("a", 30) ∷ ("b", 10) ∷ []

abbrev productivity : Assoc String Productivity
productivity =
    ("a", record { production = 3; expected_production = 4 })
    ∷ ("b", record { production = 1; expected_production = 4 })
    ∷ []

abbrev totals : Amounts
totals = record { block_reward = 100; epoch_reward = 70; foundation_bonus = 7 }

abbrev shared : Assoc String Amounts
shared =
    ("a", record { block_reward = 75; epoch_reward = 70; foundation_bonus = 7 })
    ∷ ("b", record { block_reward = 25; epoch_reward = 0; foundation_bonus = 0 })
    ∷ []

shared_run :
    breakdown_rewards rewarding ("a" ∷ "b" ∷ []) votes [] (ok productivity) totals ≡ ok shared
unfolding breakdown_rewards fold_go qualify is_productive qualify_epoch qualify_bonus
    count_production give_share share block_share epoch_share bonus_share give candidate_rank mul64
    div64 quo
shared_run = refl

breakdown_rewards-conserves_example :
    (paid (λ a. a.block_reward) shared ≤ 100)
    × (paid (λ a. a.epoch_reward) shared ≤ 70)
    × (paid (λ a. a.foundation_bonus) shared ≤ 7)
breakdown_rewards-conserves_example =
    breakdown_rewards-conserves rewarding ("a" ∷ "b" ∷ []) votes [] productivity totals shared
      shared_run

a-IsComplete : IsComplete votes productivity "a"
a-IsComplete = (cc, λ p h. ground (arith, h))

b-IsComplete : IsComplete votes productivity "b"
b-IsComplete = (cc, λ p h. ground (arith, h))

breakdown_rewards-returns_example :
    (m : Assoc String Amounts) × (breakdown_rewards rewarding
        ("a" ∷ "b" ∷ [])
        votes
        []
        (ok productivity)
        totals
      ≡ ok m)
breakdown_rewards-returns_example =
    breakdown_rewards-returns rewarding ("a" ∷ "b" ∷ []) votes [] productivity totals
      (a-IsComplete, (b-IsComplete, tt))

abbrev logs : List (Go RewardLog)
logs =
    ok (record { log_type = block_reward_log; addr = "x"; amount = number 8 })
    ∷ ok (record { log_type = epoch_reward_log; addr = "y"; amount = number 5 })
    ∷ ok (record { log_type = block_reward_log; addr = "x"; amount = number 2 })
    ∷ []

abbrev credited : Assoc String Amounts
credited =
    ("x", record { block_reward = 10; epoch_reward = 0; foundation_bonus = 0 })
    ∷ ("y", record { block_reward = 0; epoch_reward = 5; foundation_bonus = 0 })
    ∷ []

logs_run : get_reward_info_from_receipt logs ≡ ok credited
unfolding get_reward_info_from_receipt fold_go add_log credit
logs_run = refl

paid-get_reward_info_from_receipt_example : paid all_of credited ≡ sum_by worth logs
paid-get_reward_info_from_receipt_example = paid-get_reward_info_from_receipt logs credited logs_run

-- Blocks of epoch 1: "a" made 3 of its 4 blocks, "b" 1 of its 4.
abbrev block_of : String → String → BlockHistory
block_of producer expected = record {
  epoch_number = 1;
  producer_name = producer;
  expected_producer_name = expected;
}

abbrev blocks : List BlockHistory
blocks =
    block_of "a" "a"
    ∷ block_of "a" "a"
    ∷ block_of "a" "a"
    ∷ block_of "" "a"
    ∷ block_of "b" "b"
    ∷ block_of "" "b"
    ∷ block_of "" "b"
    ∷ block_of "" "b"
    ∷ []

abbrev no_percentage : Percentage
no_percentage = record { is_positive = true; hundredths = 0; is_below = λ n. true }

-- Two candidates share the address "x", and "c" has the address "y".
abbrev result_of : String → String → ℕ → VotingResult
result_of name address votes = record {
  epoch_number = 1;
  delegate_name = name;
  reward_address = address;
  total_weighted_votes = number votes;
  block_reward_percentage = no_percentage;
  epoch_reward_percentage = no_percentage;
  foundation_bonus_percentage = no_percentage;
  staking_address = name;
}

-- A row of the reward history, and the rewards of two epochs.
abbrev granted_to : ℕ → String → RewardHistory
granted_to epoch address = record {
  epoch_number = epoch;
  action_hash = "01";
  reward_address = address;
  candidate_name = "";
  rewards = totals;
}

abbrev reward_world : World RewardDb ℕ
reward_world = record {
  db = record {
    reward_history = granted_to 1 "x" ∷ granted_to 2 "x" ∷ granted_to 1 "y" ∷ [];
    account_reward = [];
    voting_result = result_of "a" "x" 30 ∷ result_of "b" "x" 10 ∷ result_of "c" "y" 5 ∷ [];
    block_history = blocks;
  };
  memory = 0;
  faults = [];
}

abbrev rebuilt : Go (Unit {0}) × World RewardDb ℕ
rebuilt = rebuild_account_reward_table rewarding 1 reward_world

rebuilt-returns : rebuilt.0 ≡ ok tt
unfolding rebuild_account_reward_table get_voting_info add_voting_result reward_history_group
    insert_account_reward exec string_to_big_int non_empty reward_rows ◌>>=◌ wrap_error query
    breakdown get_productivity count_by join_production breakdown_rewards fold_go qualify
    is_productive qualify_epoch qualify_bonus count_production give_share share block_share
    epoch_share bonus_share give candidate_rank mul64 div64 quo exemption_map
rebuilt-returns = refl

rebuild_account_reward_table-conserve_example :
    (paid (λ a. a.block_reward) (stored 1 rebuilt.1.db) ≤ 200)
    × (paid (λ a. a.epoch_reward) (stored 1 rebuilt.1.db) ≤ 140)
    × (paid (λ a. a.foundation_bonus) (stored 1 rebuilt.1.db) ≤ 14)
rebuild_account_reward_table-conserve_example =
    rebuild_account_reward_table-conserve rewarding 0 reward_world refl rebuilt-returns
