-- ===== src/Bookkeeping/PlanBounds.antt =====
-- calculatedDistributedReward: what a plan distributes is at most what there is.
use native.Mathlib.Nat.{mul-le-mul_left, div-mul-le_self}
use iotex_analytics.Common.{ℕ, ◌+◌, ◌*◌, ◌≤◌, arith}
use iotex_analytics.Bookkeeping.Tables.{Percentage}
use iotex_analytics.Bookkeeping.Plans.{
  HermesDistributionPlan, HermesDistributionSource, distributed, calculated_distributed_reward,
}

-- No percentage is above a hundred.
pub record IsProportional (plan : HermesDistributionPlan) : Type 0 where
  pub block : plan.block_reward_percentage.hundredths ≤ 10000
  pub epoch : plan.epoch_reward_percentage.hundredths ≤ 10000
  pub bonus : plan.foundation_bonus_percentage.hundredths ≤ 10000

distributed_le :
    (p : Percentage) (reward : ℕ) → p.hundredths ≤ 10000 → distributed p reward ≤ reward
distributed_le p reward h =
    ground (arith, mul-le-mul_left reward h, div-mul-le_self (reward * p.hundredths) 10000)

-- With percentages of at most a hundred, the distributed reward is at most the sum of the three
-- rewards.
pub calculated_distributed_reward_le :
    (plan : HermesDistributionPlan) (rewards : HermesDistributionSource)
    → IsProportional plan
    → calculated_distributed_reward plan rewards
      ≤ rewards.block_reward + rewards.epoch_reward + rewards.foundation_bonus
unfolding calculated_distributed_reward
calculated_distributed_reward_le plan rewards h = omega (
  arith,
  distributed_le plan.block_reward_percentage rewards.block_reward h.block,
  distributed_le plan.epoch_reward_percentage rewards.epoch_reward h.epoch,
  distributed_le plan.foundation_bonus_percentage rewards.foundation_bonus h.bonus,
)
