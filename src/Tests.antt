-- ===== src/Tests.antt =====
-- Runs at concrete inputs: each theorem that has hypotheses is applied to an input that meets them.
mod Epochs
mod Transactions
mod Batches
mod RewardRuns
mod BookkeepingRuns
mod AccountRuns
mod BlockRuns
mod ActionRuns
mod VotingRuns
mod RewardBlocks
