-- ===== src/Votings/Tables.antt =====
-- The tables of indexprotocol/votings that the staking protocol writes. `O` is what the table operators
-- of the election library keep of the buckets and the candidates.
use iotex_analytics.Common.{ℕ, Bool, List, String}
use iotex_analytics.Bookkeeping.Tables.{Text}
use iotex_analytics.Votings.Probation.{ProbationList}

pub record VotingResult : Type 0 where
  pub epoch_number : ℕ
  pub delegate_name : String
  pub operator_address : String
  pub reward_address : String
  pub total_weighted_votes : Text
  pub self_staking : String
  pub block_reward_percentage : String
  pub epoch_reward_percentage : String
  pub foundation_bonus_percentage : String
  pub staking_address : String

pub record AggregateVoting : Type 0 where
  pub epoch_number : ℕ
  pub candidate_name : String
  pub voter_address : String
  pub native_flag : Bool
  pub aggregate_votes : ℕ

pub record VotingMeta : Type 0 where
  pub epoch_number : ℕ
  pub voted_token : ℕ
  pub delegate_count : ℕ
  pub total_weighted : ℕ

pub record Votings (O : Type 0) : Type 0 where
  pub operators : O
  pub probation_list : List ProbationList
  pub voting_result : List VotingResult
  pub aggregate_voting : List AggregateVoting
  pub voting_meta : List VotingMeta
