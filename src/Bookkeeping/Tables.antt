-- ===== src/Bookkeeping/Tables.antt =====
-- The rows that queryprotocol/rewards/protocol.go reads, its queries, and the maps that it builds
-- from their answers. A text of a DECIMAL column is the number it prints, or one that big.Int refuses.
use iotex_analytics.Common.{
  keep, ℕ, ◌+◌, ◌*◌, ◌/◌, Bool, ◌&&◌, Option, none, some, List, [], ◌∷◌, String, Assoc, Error,
  nat_eq, string_eq, lookup, lookup_or, insert, Go, ok, err, message, not_exist, bind_go, wrapped,
  fold_go, leb, str_eq, if◌then◌else◌,
}

pub data Text : Type 0 where
  number : ℕ → Text
  malformed : Text

-- What the code reads of a float64 that is a percentage: `p > 0`, `int64(p*100)`, `p < float64(n)`.
pub record Percentage : Type 0 where
  pub is_positive : Bool
  pub hundredths : ℕ
  pub is_below : ℕ → Bool

pub record AccountReward : Type 0 where
  pub epoch_number : ℕ
  pub candidate_name : String
  pub block_reward : Text
  pub epoch_reward : Text
  pub foundation_bonus : Text

pub record VotingResult : Type 0 where
  pub epoch_number : ℕ
  pub delegate_name : String
  pub reward_address : String
  pub total_weighted_votes : Text
  pub block_reward_percentage : Percentage
  pub epoch_reward_percentage : Percentage
  pub foundation_bonus_percentage : Percentage
  pub staking_address : String

pub record AggregateVoting : Type 0 where
  pub epoch_number : ℕ
  pub candidate_name : String
  pub voter_address : String
  pub aggregate_votes : Text

-- The queries, and the steps at which each can fail.
pub data Statement : Type 0 where
  select_voting_result select_account_reward select_aggregate_voting select_account_reward_in :
      Statement
  select_voting_result_all select_aggregate_voting_in select_aggregate_voting_all : Statement
  select_voting_result_in : Statement

pub data Stage : Type 0 where
  prepare execute parse : Stage

-- The registered protocols that the queries ask for, the tables, and what the database refuses.
pub record Tables : Type 0 where
  pub has_rewards : Bool
  pub has_votings : Bool
  pub account_rewards : List AccountReward
  pub voting_results : List VotingResult
  pub aggregate_votings : List AggregateVoting
  pub fault : Statement → Stage → Option Error

abbrev attempt : Tables → Statement → Stage → Go (Unit {0})
attempt t s stage = elim (t.fault s stage) [ none ↦ ok tt | some e ↦ err e ]

abbrev pub non_empty {ℓ} : {A : Type ℓ} → List A → Go (List A)
non_empty [] = err not_exist
non_empty (x ∷ xs) = ok (x ∷ xs)

-- Prepare, Query and ParseSQLRows, as every reader runs them; no row is an error.
unfoldable pub fetch {ℓ} : {A : Type ℓ} → Tables → Statement → List A → Go (List A)
fetch t s rows = bind_go (wrapped "failed to prepare get query" (attempt t s prepare)) (λ u.
    bind_go (wrapped "failed to execute get query" (attempt t s execute))
      (λ u. bind_go (wrapped "failed to parse results" (attempt t s parse)) (λ u. non_empty rows)))

unfoldable pub string_to_big_int : Text → Go ℕ
string_to_big_int (number n) = ok n
string_to_big_int malformed = err (message "failed to parse string to big int")

-- An error of string_to_big_int, replaced by another one.
abbrev pub replaced {ℓ} : {A : Type ℓ} → String → Go A → Go A
replaced s (err e) = err (message s)
replaced s m = m

abbrev pub converted : Text → Go ℕ
converted t = replaced "failed to covert string to big int" (string_to_big_int t)

abbrev pub within : ℕ → ℕ → ℕ → Bool
within start end epoch = leb start epoch && leb epoch end

unfoldable pub add_total : Assoc ℕ ℕ → VotingResult → Go (Assoc ℕ ℕ)
add_total m row =
    bind_go (converted row.total_weighted_votes) (λ votes. ok (insert row.epoch_number votes m))

unfoldable pub total_weighted_votes : Tables → ℕ → ℕ → String → Go (Assoc ℕ ℕ)
unfolding fetch add_total
total_weighted_votes t start end name =
    bind_go
      (fetch t select_voting_result (
        keep (λ r. within start end r.epoch_number && str_eq r.delegate_name name)
          t.voting_results))
      (λ rows. fold_go add_total [] rows)

-- The reward of one row: `percentage` hundredths of what is included.
unfoldable pub reward_to_split : ℕ → Bool → Bool → AccountReward → Go ℕ
reward_to_split percentage with_block with_bonus row =
    bind_go (converted row.epoch_reward) (λ reward.
      bind_go
        (if with_bonus
          then bind_go (converted row.foundation_bonus) (λ bonus. ok (reward + bonus))
          else ok reward)
        (λ reward.
          bind_go
            (if with_block
              then bind_go (converted row.block_reward) (λ block. ok (reward + block))
              else ok reward)
            (λ reward. ok (reward * percentage / 100))))

abbrev pub add_reward : ℕ → Bool → Bool → Assoc ℕ ℕ → AccountReward → Go (Assoc ℕ ℕ)
add_reward percentage with_block with_bonus m row =
    bind_go (reward_to_split percentage with_block with_bonus row)
      (λ reward. ok (insert row.epoch_number reward m))

unfoldable pub rewards_to_split : Tables → ℕ → ℕ → String → ℕ → Bool → Bool → Go (Assoc ℕ ℕ)
unfolding fetch
rewards_to_split t start end name percentage with_block with_bonus =
    if t.has_rewards
    then bind_go
        (fetch t select_account_reward (
          keep (λ r. within start end r.epoch_number && str_eq r.candidate_name name)
            t.account_rewards))
        (λ rows. fold_go (add_reward percentage with_block with_bonus) [] rows)
    else err (message "rewards protocol is unregistered")

-- The votes of a voter who is there already are added up.
abbrev pub add_votes : String → ℕ → Assoc String ℕ → Assoc String ℕ
add_votes voter votes m = elim (lookup voter m) [
  | none ↦ insert voter votes m
  | some old ↦ insert voter (old + votes) m
]

unfoldable pub add_voter :
    Assoc ℕ (Assoc String ℕ) → AggregateVoting → Go (Assoc ℕ (Assoc String ℕ))
add_voter m row =
    bind_go (wrapped "failed to convert to big int" (string_to_big_int row.aggregate_votes))
      (λ votes. ok (
        insert row.epoch_number
          (add_votes row.voter_address votes (lookup_or [] row.epoch_number m)) m))

unfoldable pub voter_votes : Tables → ℕ → ℕ → String → Go (Assoc ℕ (Assoc String ℕ))
unfolding fetch add_voter
voter_votes t start end name =
    bind_go
      (fetch t select_aggregate_voting (
        keep (λ r. within start end r.epoch_number && str_eq r.candidate_name name)
          t.aggregate_votings))
      (λ rows. fold_go add_voter [] rows)
