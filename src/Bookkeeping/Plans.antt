-- ===== src/Bookkeeping/Plans.antt =====
-- The distribution plans of queryprotocol/rewards/protocol.go, the rewards and votes that they apply
-- to, and calculatedDistributedReward. The pairs to search for are those of the source's texts
-- "(epoch, 'name')".
use iotex_analytics.Common.{
  keep, ℕ, ◌+◌, ◌*◌, ◌/◌, Bool, false, ◌&&◌, ◌||◌, none, some, List, [], ◌∷◌, ◌++◌, String, Assoc,
  nat_eq, string_eq, lookup, lookup_or, insert, Go, ok, err, message, bind_go, wrapped, fold_go,
  ◌==◌, str_eq, if◌then◌else◌,
}
use iotex_analytics.Bookkeeping.Tables.{
  Percentage, AccountReward, VotingResult, AggregateVoting, Tables, select_account_reward_in,
  select_voting_result_all, select_aggregate_voting_in, select_aggregate_voting_all,
  select_voting_result_in, fetch, string_to_big_int, converted, replaced, within, add_votes,
}

pub record HermesDistributionPlan : Type 0 where
  pub total_weighted_votes : ℕ
  pub staking_address : String
  pub block_reward_percentage : Percentage
  pub epoch_reward_percentage : Percentage
  pub foundation_bonus_percentage : Percentage

pub record HermesDistributionSource : Type 0 where
  pub block_reward : ℕ
  pub epoch_reward : ℕ
  pub foundation_bonus : ℕ

-- A map from delegates to a map from epochs.
abbrev pub ByDelegate {ℓ} : Type ℓ → Type ℓ
ByDelegate A = Assoc String (Assoc ℕ A)

abbrev pub insert_at {ℓ} : {A : Type ℓ} → String → ℕ → A → ByDelegate A → ByDelegate A
insert_at name epoch a m = insert name (insert epoch a (lookup_or [] name m)) m

-- `for epochNumber := range planMap`
abbrev epochs_of {ℓ} : {A : Type ℓ} → String → Assoc ℕ A → List (ℕ × String)
epochs_of name [] = []
epochs_of name ((epoch, a) ∷ m) = (epoch, name) ∷ epochs_of name m

abbrev pub search_pairs {ℓ} : {A : Type ℓ} → ByDelegate A → List (ℕ × String)
search_pairs [] = []
search_pairs ((name, m) ∷ rest) = epochs_of name m ++ search_pairs rest

-- `WHERE (epoch_number, name) IN (pairs)`
abbrev is_among : ℕ → String → List (ℕ × String) → Bool
is_among epoch name [] = false
is_among epoch name ((e, n) ∷ pairs) = (e == epoch && str_eq n name) || is_among epoch name pairs

unfoldable pub add_account_reward :
    ByDelegate HermesDistributionSource → AccountReward → Go (ByDelegate HermesDistributionSource)
add_account_reward m row = bind_go (converted row.block_reward) (λ block.
    bind_go (converted row.epoch_reward) (λ epoch.
      bind_go (converted row.foundation_bonus) (λ bonus.
        let source : HermesDistributionSource = record {
          block_reward = block;
          epoch_reward = epoch;
          foundation_bonus = bonus;
        } in
        ok (insert_at row.candidate_name row.epoch_number source m))))

unfoldable pub account_rewards :
    Tables → List (ℕ × String) → Go (ByDelegate HermesDistributionSource)
unfolding fetch add_account_reward
account_rewards t pairs =
    if t.has_rewards
    then bind_go
        (fetch t select_account_reward_in
          (keep (λ r. is_among r.epoch_number r.candidate_name pairs) t.account_rewards))
        (λ rows. fold_go add_account_reward [] rows)
    else err (message "rewards protocol is unregistered")

unfoldable pub add_plan :
    ByDelegate HermesDistributionPlan → VotingResult → Go (ByDelegate HermesDistributionPlan)
add_plan m row =
    bind_go
      (replaced "failed to convert string to big int" (string_to_big_int row.total_weighted_votes))
      (λ votes.
        let plan : HermesDistributionPlan = record {
          total_weighted_votes = votes;
          staking_address = row.staking_address;
          block_reward_percentage = row.block_reward_percentage;
          epoch_reward_percentage = row.epoch_reward_percentage;
          foundation_bonus_percentage = row.foundation_bonus_percentage;
        } in
        ok (insert_at row.delegate_name row.epoch_number plan m))

-- parseDistributionPlanFromVotingResult on the rows that the query returned.
abbrev pub parse_plans : List VotingResult → Go (ByDelegate HermesDistributionPlan)
parse_plans rows = fold_go add_plan [] rows

unfoldable pub distribution_plan_by_reward_address :
    Tables → ℕ → ℕ → String → Go (ByDelegate HermesDistributionPlan)
unfolding fetch add_plan
distribution_plan_by_reward_address t start end address =
    if t.has_votings
    then bind_go
        (fetch t select_voting_result_all (
          keep (λ r. within start end r.epoch_number && str_eq r.reward_address address)
            t.voting_results))
        parse_plans
    else err (message "rewards protocol is unregistered")

unfoldable pub distribution_plan_by_search_pairs :
    Tables → List (ℕ × String) → Go (ByDelegate HermesDistributionPlan)
unfolding fetch add_plan
distribution_plan_by_search_pairs t pairs =
    bind_go
      (fetch t select_voting_result_in
        (keep (λ r. is_among r.epoch_number r.delegate_name pairs) t.voting_results))
      parse_plans

unfoldable pub add_voter_of :
    ByDelegate (Assoc String ℕ) → AggregateVoting → Go (ByDelegate (Assoc String ℕ))
add_voter_of m row =
    bind_go (wrapped "failed to convert to big int" (string_to_big_int row.aggregate_votes))
      (λ votes.
        let old = lookup_or [] row.epoch_number (lookup_or [] row.candidate_name m) in
        ok
          (insert_at row.candidate_name row.epoch_number (add_votes row.voter_address votes old) m))

unfoldable pub weighted_votes_by_search_pairs :
    Tables → List (ℕ × String) → Go (ByDelegate (Assoc String ℕ))
unfolding fetch add_voter_of
weighted_votes_by_search_pairs t pairs =
    bind_go
      (fetch t select_aggregate_voting_in
        (keep (λ r. is_among r.epoch_number r.candidate_name pairs) t.aggregate_votings))
      (λ rows. fold_go add_voter_of [] rows)

unfoldable pub add_votes_of : ByDelegate ℕ → AggregateVoting → Go (ByDelegate ℕ)
add_votes_of m row =
    bind_go (wrapped "failed to convert to big int" (string_to_big_int row.aggregate_votes))
      (λ votes.
        let old = lookup row.epoch_number (lookup_or [] row.candidate_name m) in
        ok (
          insert_at row.candidate_name row.epoch_number
            (elim old [ none ↦ votes | some v ↦ v + votes ]) m))

unfoldable pub weighted_votes_by_voter_address : Tables → ℕ → ℕ → String → Go (ByDelegate ℕ)
unfolding fetch add_votes_of
weighted_votes_by_voter_address t start end address =
    if t.has_votings
    then bind_go
        (fetch t select_aggregate_voting_all (
          keep (λ r. within start end r.epoch_number && str_eq r.voter_address address)
            t.aggregate_votings))
        (λ rows. fold_go add_votes_of [] rows)
    else err (message "rewards protocol is unregistered")

-- The part of one kind of reward. The percentage has two decimals.
abbrev pub distributed : Percentage → ℕ → ℕ
distributed p reward = if p.is_positive then reward * p.hundredths / 10000 else 0

unfoldable pub calculated_distributed_reward : HermesDistributionPlan → HermesDistributionSource → ℕ
calculated_distributed_reward plan rewards =
    distributed plan.block_reward_percentage rewards.block_reward
    + distributed plan.epoch_reward_percentage rewards.epoch_reward
    + distributed plan.foundation_bonus_percentage rewards.foundation_bonus
