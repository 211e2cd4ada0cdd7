-- ===== src/Bookkeeping.antt =====
-- queryprotocol/rewards/protocol.go: how the reward of a delegate is split among its voters.
-- Tables holds the rows, the queries and the maps that they are read into, Split GetBookkeeping,
-- Plans the distribution plans and the part of a reward that a plan distributes, Hermes the queries
-- on the delegates of Hermes.
pub mod Tables
pub mod Split
pub mod SplitBounds
pub mod SplitReturns
pub mod Plans
pub mod Hermes
pub mod PlanBounds
pub mod HermesBalance
pub mod HermesReturns
pub mod Refunds
pub mod ZeroVotes
