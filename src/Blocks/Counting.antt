-- ===== src/Blocks/Counting.antt =====
-- The action counters of HandleBlock of indexprotocol/blocks/protocol.go.
use iotex_analytics.Common.{
  ℕ, ◌+◌, ◌≡◌, ◌<◌, Bool, false, List, [], ◌∷◌, length, sum_by, u64, add64_small, ◌==◌,
  if◌then◌else◌, arith,
}
use iotex_analytics.Blocks.{
  transfer, execution, deposit_to_rewarding_fund, claim_from_rewarding_fund, grant_reward,
  create_stake, unstake, withdraw_stake, deposit_to_stake, restake, change_candidate,
  transfer_stake, candidate_register, candidate_update, put_poll_result, other_action, Action,
  Counts, no_counts, count_action, count_actions,
}

-- The column in which an action is counted, and 0 for an action that is not.
abbrev pub column : Action → Counts → ℕ
column transfer c = c.transfer_count
column execution c = c.execution_count
column deposit_to_rewarding_fund c = c.deposit_to_rewarding_fund_count
column claim_from_rewarding_fund c = c.claim_from_rewarding_fund_count
column grant_reward c = c.grant_reward_count
column create_stake c = c.stake_create_count
column unstake c = c.stake_unstake_count
column withdraw_stake c = c.stake_withdraw_count
column deposit_to_stake c = c.stake_add_deposit_count
column restake c = c.stake_restake_count
column change_candidate c = c.stake_change_candidate_count
column transfer_stake c = c.stake_transfer_ownership_count
column candidate_register c = c.candidate_register_count
column candidate_update c = c.candidate_update_count
column put_poll_result c = c.put_poll_result_count
column (other_action n) c = 0

-- A number for each kind of action.
abbrev kind : Action → ℕ
kind transfer = 1
kind execution = 2
kind deposit_to_rewarding_fund = 3
kind claim_from_rewarding_fund = 4
kind grant_reward = 5
kind create_stake = 6
kind unstake = 7
kind withdraw_stake = 8
kind deposit_to_stake = 9
kind restake = 10
kind change_candidate = 11
kind transfer_stake = 12
kind candidate_register = 13
kind candidate_update = 14
kind put_poll_result = 15
kind (other_action n) = 0

-- Whether two actions are of one kind that is counted.
abbrev pub is_same : Action → Action → Bool
is_same a (other_action n) = false
is_same a b = kind a == kind b

abbrev pub how_many : Action → List Action → ℕ
how_many k = sum_by (λ a. if is_same k a then 1 else 0)

column-count_action :
    (k a : Action) (c : Counts)
    → column k c + 1 < u64
    → column k (count_action a c) ≡ column k c + (if is_same k a then 1 else 0)
unfolding count_action
column-count_action k a c h = ground (arith, add64_small (column k c) 1)

column_zero : (k : Action) → column k no_counts ≡ 0
column_zero k = ground arith

columns-count_actions :
    (k : Action) (acts : List Action) (c : Counts)
    → column k c + length acts < u64
    → column k (count_actions acts c) ≡ column k c + how_many k acts
unfolding count_actions
columns-count_actions k [] c h = omega arith
columns-count_actions k (a ∷ acts) c h =
    let step = column-count_action k a c (omega arith) in
    let small : column k (count_action a c) + length acts < u64 = ground (arith, step, h) in
    omega (arith, step, columns-count_actions k acts (count_action a c) small)

-- Of a block with fewer than 2 ^ 64 actions, the counter of each kind of action that is counted is the
-- number of the actions of that kind.
pub count_actions-how_many :
    (k : Action) (acts : List Action)
    → length acts < u64
    → column k (count_actions acts no_counts) ≡ how_many k acts
count_actions-how_many k acts h =
    let start = column_zero k in
    omega (arith, start, columns-count_actions k acts no_counts (omega (arith, start)))
