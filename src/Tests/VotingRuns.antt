-- ===== src/Tests/VotingRuns.antt =====
-- The voting index at the start of an epoch, with two candidates, one of them on probation.
use iotex_analytics.Common.{
  ℕ, ◌+◌, ◌*◌, ◌%◌, ◌≡◌, refl, Bool, true, false, none, some, List, [], ◌∷◌, String, Assoc, All,
  string_eq, pair_eq, Go, ok, fold_go, add64, sub64, mul64, div64,
}
use iotex_analytics.Epoch.{EpochCtx, get_epoch_height, fairbank_effective_height}
use iotex_analytics.DelegateName.{encode_delegate_name, strip_hashes}
use iotex_analytics.DelegateName.Hex.{hex_encode}
use iotex_analytics.Store.{World, ◌>>=◌, exec, query, for_each, wrap_error}
use iotex_analytics.Bookkeeping.Tables.{number, string_to_big_int}
use iotex_analytics.Paging.{
  VoteBucket, Candidate, all_pages, get_all_staking_buckets, get_all_staking_candidates,
}
use iotex_analytics.Votings.Probation.{
  ProbationCandidateList, Arithmetic, filtered_candidate, filter_candidate, candidates_of,
  filter_staking_candidates, add_candidate_probation, add_candidates,
  convert_probation_list_to_local, staking_probation_list_to_map,
}
use iotex_analytics.Votings.Weights.{
  Weighing, Sums, vote_weight, calculate_vote_weight, self_stake_index_map,
  owner_address_to_name_map, add_vote, add_votes, total_weighted,
}
use iotex_analytics.Votings.Tables.{VotingResult, AggregateVoting, VotingMeta, Votings}
use iotex_analytics.Votings.Profiles.{
  Profile, add_event, add_topics, add_logs, get_log, get_all_staking_delegate_reward_portions,
  topic_profile_updated,
}
use iotex_analytics.Votings.{
  Services, voting_result_of, insert_voting_result, insert_aggregate_voting, insert_voting_meta,
  aggregate_row, update_staking_result, update_aggregate_staking, process_staking,
}
use iotex_analytics.Votings.Counted.{votes_of, staked_in, add_votes-sums}
use iotex_analytics.Votings.Results.{AreRows, update_staking_result-voting_result}
use iotex_analytics.Votings.Meta.{staked_for, update_aggregate_staking-voting_meta}
use iotex_analytics.Votings.Filtering.{ComesFrom, filter_staking_candidates-ComesFrom}

abbrev weighing : Weighing
weighing = record {
  Weight = ℕ;
  one = 1;
  of_time = λ seconds auto. 2;
  bonus = λ w. w + 1;
  times = λ n w. n * w;
}

-- A bucket for a candidate, staked for so many days.
abbrev bucket : ℕ → String → String → ℕ → ℕ → VoteBucket
bucket index candidate owner amount days = record {
  index = index;
  candidate_address = candidate;
  owner = owner;
  staked_amount = number amount;
  staked_duration = days;
  auto_stake = true;
  stake_start_time = 1;
  unstake_start_time = 0;
}

abbrev three_votes : List VoteBucket
three_votes =
    bucket 1 "owner_a" "v" 10 91 ∷ bucket 2 "owner_a" "v" 5 0 ∷ bucket 3 "nobody" "v" 7 0 ∷ []

abbrev names : Assoc String String
names = ("owner_a", "a") ∷ []

abbrev self_stakes : Assoc ℕ Bool
self_stakes = (1, true) ∷ []

-- 10 with the weight of a self-stake, and 5.
abbrev three_sums : Sums
three_sums = record { weighted_votes = (("owner_a", "v"), 35) ∷ []; total_voted = 15 }

three_sums-add_votes : add_votes weighing names self_stakes three_votes ≡ ok three_sums
unfolding add_votes add_vote fold_go calculate_vote_weight vote_weight string_to_big_int
three_sums-add_votes = refl

add_votes-sums_example :
    (35 ≡ votes_of weighing names self_stakes ("owner_a", "v") three_votes)
    × (15 ≡ staked_in weighing names self_stakes three_votes)
add_votes-sums_example =
    add_votes-sums weighing names self_stakes three_votes three_sums ("owner_a", "v")
      three_sums-add_votes

abbrev halves : Arithmetic
halves = record { scale = λ rate n. n * rate % 97; sort = λ powers height. "op_b" ∷ "op_a" ∷ [] }

abbrev candidate : String → String → String → ℕ → Candidate
candidate name owner operator votes = record {
  name = name;
  owner_address = owner;
  operator_address = operator;
  reward_address = "r";
  total_weighted_votes = number votes;
  self_stake_bucket_idx = 1;
  self_staking_tokens = "5";
}

abbrev two_candidates : List Candidate
two_candidates = candidate "ab" "owner_a" "op_a" 3 ∷ candidate "cd" "owner_b" "op_b" 4 ∷ []

abbrev probation : ProbationCandidateList
probation = record { intensity_rate = 90; probation_list = ("op_a", 1) ∷ [] }

abbrev filtered : List Candidate
filtered = candidate "cd" "owner_b" "op_b" 4 ∷ candidate "ab" "owner_a" "op_a" 30 ∷ []

filtered-returns : filter_staking_candidates halves two_candidates probation 10 ≡ ok filtered
unfolding filter_staking_candidates filter_candidate filtered_candidate candidates_of fold_go
filtered-returns = refl

filter_staking_candidates-ComesFrom_example :
    All (ComesFrom halves 10 (("op_a", 1) ∷ []) two_candidates) filtered
filter_staking_candidates-ComesFrom_example =
    filter_staking_candidates-ComesFrom halves two_candidates probation 10 filtered filtered-returns

abbrev fairbank_at_10 : EpochCtx
fairbank_at_10 = record {
  num_candidate_delegates = 2;
  num_delegates = 2;
  num_sub_epochs = 1;
  num_sub_epochs_dardanelles = 0;
  dardanelles_height = 0;
  dardanelles_on = false;
  fairbank_height = 10;
}

abbrev profile : Profile
profile = record {
  Percent = ℕ;
  hundredth = λ n. n;
  read = λ s. 0;
  abi = ok tt;
  portion_contract = "contract";
  deploy_height = 1;
  get_logs = λ contract from count. ok (
      record {
        topics = topic_profile_updated ∷ [];
        event = ok (record { name = "blockRewardPortion"; delegate = "owner_a"; value = 20 });
      }
      ∷ []);
}

abbrev services : Services ℕ ℕ
services = record {
  buckets_page = λ height offset limit. ok three_votes;
  candidates_page = λ height offset limit. ok two_candidates;
  put_buckets = λ height votes o. ok (o + 1);
  put_candidates = λ height candidates o. ok (o + 1);
  io_addr_to_evm_addr = λ a. ok a;
  print = λ p. elim p [ none ↦ "0" | some n ↦ "20" ];
}

abbrev old_result : VotingResult
old_result = record {
  epoch_number = 1;
  delegate_name = "000000000000000000006162";
  operator_address = "op_a";
  reward_address = "r";
  total_weighted_votes = number 1;
  self_staking = "5";
  block_reward_percentage = "0";
  epoch_reward_percentage = "0";
  foundation_bonus_percentage = "0";
  staking_address = "owner_a";
}

abbrev before : Votings ℕ
before = record {
  operators = 0;
  probation_list = [];
  voting_result = old_result ∷ [];
  aggregate_voting = [];
  voting_meta = [];
}

abbrev calm : World (Votings ℕ) (Unit {0})
calm = record { db = before; memory = tt; faults = [] }

abbrev run : Go (Unit {0}) × World (Votings ℕ) (Unit {0})
run = process_staking profile services halves weighing fairbank_at_10 10 9 2 (some probation) calm

-- The votes are scaled as the candidate that they are given is on probation.
abbrev vote_row : AggregateVoting
vote_row = record {
  epoch_number = 2;
  candidate_name = "000000000000000000006162";
  voter_address = "v";
  native_flag = true;
  aggregate_votes = 59;
}

abbrev meta_row : VotingMeta
meta_row = record { epoch_number = 2; voted_token = 15; delegate_count = 2; total_weighted = 34 }

run-returns :
    (run.0 ≡ ok tt)
    × (run.1.db.operators ≡ 2)
    × (run.1.db.aggregate_voting ≡ vote_row ∷ [])
    × (run.1.db.voting_meta ≡ meta_row ∷ [])
unfolding process_staking get_all_staking_buckets get_all_staking_candidates all_pages
    filter_staking_candidates filter_candidate filtered_candidate candidates_of fold_go
    update_staking_result update_aggregate_staking get_all_staking_delegate_reward_portions
    voting_result_of insert_voting_result insert_aggregate_voting insert_voting_meta aggregate_row
    get_log add_logs add_topics add_event get_epoch_height fairbank_effective_height
    encode_delegate_name strip_hashes hex_encode owner_address_to_name_map self_stake_index_map
    add_votes add_vote calculate_vote_weight vote_weight string_to_big_int total_weighted
    convert_probation_list_to_local staking_probation_list_to_map add_candidates
    add_candidate_probation ◌>>=◌ exec query for_each wrap_error add64 sub64 mul64 div64
run-returns = (refl, refl, refl, refl)

abbrev aggregated : Go (Unit {0}) × World (Votings ℕ) (Unit {0})
aggregated =
    update_aggregate_staking profile services halves weighing three_votes filtered 2
      (some probation) calm

aggregated-returns : aggregated.0 ≡ ok tt
unfolding update_aggregate_staking insert_aggregate_voting insert_voting_meta aggregate_row
    encode_delegate_name strip_hashes hex_encode owner_address_to_name_map self_stake_index_map
    add_votes add_vote calculate_vote_weight vote_weight string_to_big_int total_weighted
    convert_probation_list_to_local staking_probation_list_to_map add_candidates
    add_candidate_probation fold_go ◌>>=◌ exec query for_each wrap_error sub64
aggregated-returns = refl

update_aggregate_staking-voting_meta_example :
    aggregated.1.db.voting_meta
    ≡ record {
      epoch_number = 2;
      voted_token = staked_for filtered three_votes;
      delegate_count = 2;
      total_weighted = 34;
    }
      ∷ []
update_aggregate_staking-voting_meta_example =
    update_aggregate_staking-voting_meta profile services halves weighing three_votes filtered 2
      (some probation) calm aggregated-returns

abbrev results : Go (Unit {0}) × World (Votings ℕ) (Unit {0})
results = update_staking_result profile services fairbank_at_10 filtered 2 10 calm

results-returns : results.0 ≡ ok tt
unfolding update_staking_result get_all_staking_delegate_reward_portions voting_result_of
    insert_voting_result get_log add_logs add_topics add_event get_epoch_height
    fairbank_effective_height encode_delegate_name strip_hashes hex_encode ◌>>=◌ exec query for_each
    wrap_error add64 sub64 mul64
results-returns = refl

update_staking_result-voting_result_example :
    (rows : List VotingResult) × AreRows 2 filtered rows
    × (results.1.db.voting_result ≡ old_result ∷ rows)
update_staking_result-voting_result_example =
    update_staking_result-voting_result profile services fairbank_at_10 filtered 2 10 calm
      results-returns
