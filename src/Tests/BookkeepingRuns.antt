-- ===== src/Tests/BookkeepingRuns.antt =====
-- One delegate, two voters, one epoch.
use iotex_analytics.Common.{
  ℕ, ◌-◌, ◌≤◌, ◌≡◌, ◌≢◌, refl, pos, ◌+ℤ◌, ◌-ℤ◌, true, false, none, List, [], ◌∷◌, String, Assoc,
  nat_eq, string_eq, lookup_or, total, sum_by, Go, ok, fold_go, quo, add64, sub64, ltb, arith,
}
use iotex_analytics.Bookkeeping.Tables.{
  number, Percentage, Tables, fetch, string_to_big_int, add_total, total_weighted_votes,
  reward_to_split, rewards_to_split, add_voter, voter_votes,
}
use iotex_analytics.Bookkeeping.Split.{
  RewardDistribution, pay_voter, pay_epoch, split_rewards, convert_voter_distribution_map_to_list,
  last_epoch, get_bookkeeping, listed,
}
use iotex_analytics.Bookkeeping.SplitBounds.{paid_to, split_rewards-pays, get_bookkeeping_le}
use iotex_analytics.Bookkeeping.SplitReturns.{get_bookkeeping-returns}
use iotex_analytics.Bookkeeping.Plans.{
  HermesDistributionPlan, HermesDistributionSource, ByDelegate, search_pairs, add_account_reward,
  account_rewards, add_plan, distribution_plan_by_reward_address, add_voter_of,
  weighted_votes_by_search_pairs, calculated_distributed_reward,
}
use iotex_analytics.Bookkeeping.PlanBounds.{IsProportional}
use iotex_analytics.Bookkeeping.Hermes.{
  DelegateHermesDistribution, pay_hermes_voter, pay_hermes_epoch, pay_delegate,
  get_hermes_bookkeeping,
}
use iotex_analytics.Bookkeeping.HermesBalance.{IsFunded}
use iotex_analytics.Bookkeeping.Refunds.{
  AccountsFor, Pairwise, rewards_of, paid_out, pay_delegate-refund_nonneg,
  get_hermes_bookkeeping-AccountsFor,
}
use iotex_analytics.Bookkeeping.HermesReturns.{get_hermes_bookkeeping-returns}
use iotex_analytics.Bookkeeping.ZeroVotes.{HasNoVotes, get_hermes_bookkeeping-zero}

abbrev eighty : Percentage
eighty = record { is_positive = true; hundredths = 8000; is_below = λ n. ltb 80 n }

abbrev tables : Tables
tables = record {
  has_rewards = true;
  has_votings = true;
  account_rewards =
      record {
        epoch_number = 4;
        candidate_name = "d";
        block_reward = number 100;
        epoch_reward = number 50;
        foundation_bonus = number 0;
      }
      ∷ [];
  voting_results =
      record {
        epoch_number = 4;
        delegate_name = "d";
        reward_address = "r";
        total_weighted_votes = number 9;
        block_reward_percentage = eighty;
        epoch_reward_percentage = eighty;
        foundation_bonus_percentage = eighty;
        staking_address = "s";
      }
      ∷ [];
  aggregate_votings =
      record {
        epoch_number = 4;
        candidate_name = "d";
        voter_address = "u";
        aggregate_votes = number 5;
      }
      ∷ record {
        epoch_number = 4;
        candidate_name = "d";
        voter_address = "v";
        aggregate_votes = number 4;
      }
      ∷ [];
  fault = λ s stage. none;
}

abbrev to_io : String → Go String
to_io a = ok a

abbrev rewards : Assoc ℕ ℕ
rewards = (4, 100) ∷ []

abbrev vote_totals : Assoc ℕ ℕ
vote_totals = (4, 9) ∷ []

abbrev ballots : Assoc String ℕ
ballots = ("u", 5) ∷ ("v", 4) ∷ []

abbrev voters : Assoc ℕ (Assoc String ℕ)
voters = (4, ballots) ∷ []

rewards_run : rewards_to_split tables 4 (last_epoch 4 1) "d" 100 true false ≡ ok ((4, 150) ∷ [])
unfolding rewards_to_split fetch fold_go reward_to_split string_to_big_int add64 sub64
rewards_run = refl

totals_run : total_weighted_votes tables 4 (last_epoch 4 1) "d" ≡ ok vote_totals
unfolding total_weighted_votes fetch fold_go add_total string_to_big_int add64 sub64
totals_run = refl

voters_run : voter_votes tables 4 (last_epoch 4 1) "d" ≡ ok voters
unfolding voter_votes fetch fold_go add_voter string_to_big_int add64 sub64
voters_run = refl

split_run : split_rewards rewards vote_totals voters ≡ ok (("u", 55) ∷ ("v", 44) ∷ [])
unfolding split_rewards fold_go pay_epoch pay_voter quo
split_run = refl

split_rewards-pays_example : 55 ≡ sum_by (paid_to vote_totals voters "u") rewards
split_rewards-pays_example =
    split_rewards-pays vote_totals voters rewards (("u", 55) ∷ ("v", 44) ∷ []) "u" split_run

abbrev distributions : List RewardDistribution
distributions = listed "u" "u" 83 ∷ listed "v" "v" 66 ∷ []

bookkeeping_run : get_bookkeeping to_io tables 4 1 "d" 100 true false ≡ ok distributions
unfolding get_bookkeeping rewards_to_split total_weighted_votes voter_votes fetch fold_go
    reward_to_split add_total add_voter string_to_big_int add64 sub64 split_rewards pay_epoch
    pay_voter quo convert_voter_distribution_map_to_list
bookkeeping_run = refl

covered : (epoch : ℕ) → total (lookup_or [] epoch voters) ≤ lookup_or 0 epoch vote_totals
covered epoch = ground arith

get_bookkeeping_le_example : sum_by (λ d. d.amount) distributions ≤ 150
get_bookkeeping_le_example =
    get_bookkeeping_le to_io tables 4 1 "d" 100 true false ((4, 150) ∷ []) vote_totals voters
      distributions rewards_run totals_run voters_run covered bookkeeping_run

get_bookkeeping-returns_example :
    (ds : List RewardDistribution) × (get_bookkeeping to_io tables 4 1 "d" 100 true false ≡ ok ds)
get_bookkeeping-returns_example =
    get_bookkeeping-returns to_io tables 4 1 "d" 100 true false ((4, 150) ∷ []) vote_totals voters
      rewards_run totals_run voters_run ((cc, cc), tt) (λ a. (a, refl))

abbrev plan : HermesDistributionPlan
plan = record {
  total_weighted_votes = 9;
  staking_address = "s";
  block_reward_percentage = eighty;
  epoch_reward_percentage = eighty;
  foundation_bonus_percentage = eighty;
}

plan-IsProportional : IsProportional plan
plan-IsProportional = record { block = omega arith; epoch = omega arith; bonus = omega arith }

abbrev source : HermesDistributionSource
source = record { block_reward = 100; epoch_reward = 50; foundation_bonus = 0 }

abbrev plans : ByDelegate HermesDistributionPlan
plans = ("d", (4, plan) ∷ []) ∷ []

abbrev sources : ByDelegate HermesDistributionSource
sources = ("d", (4, source) ∷ []) ∷ []

-- 80 % of 150 is 120: 66 and 53 for the voters, and 31 are left.
abbrev entry_of_d : DelegateHermesDistribution
entry_of_d = record {
  delegate_name = "d";
  distributions = listed "u" "u" 66 ∷ listed "v" "v" 53 ∷ [];
  staking_iotex_address = "s";
  voter_count = 2;
  waive_service_fee = true;
  refund = pos 31;
}

plans_run : distribution_plan_by_reward_address tables 4 (last_epoch 4 1) "r" ≡ ok plans
unfolding distribution_plan_by_reward_address fetch fold_go add_plan string_to_big_int add64 sub64
plans_run = refl

sources_run : account_rewards tables (search_pairs plans) ≡ ok sources
unfolding account_rewards fetch fold_go add_account_reward string_to_big_int
sources_run = refl

hermes_run : get_hermes_bookkeeping to_io tables 4 1 "r" 70 ≡ ok (entry_of_d ∷ [])
unfolding get_hermes_bookkeeping distribution_plan_by_reward_address account_rewards
    weighted_votes_by_search_pairs fetch fold_go add_plan add_account_reward add_voter_of
    string_to_big_int add64 sub64 pay_delegate pay_hermes_epoch pay_hermes_voter
    calculated_distributed_reward quo convert_voter_distribution_map_to_list ◌+ℤ◌ ◌-ℤ◌
hermes_run = refl

get_hermes_bookkeeping-AccountsFor_example : Pairwise AccountsFor sources (entry_of_d ∷ [])
get_hermes_bookkeeping-AccountsFor_example =
    get_hermes_bookkeeping-AccountsFor to_io tables 4 1 "r" 70 plans sources (entry_of_d ∷ [])
      plans_run sources_run hermes_run

ballots_run : weighted_votes_by_search_pairs tables (search_pairs plans) ≡ ok (("d", voters) ∷ [])
unfolding weighted_votes_by_search_pairs fetch fold_go add_voter_of string_to_big_int
ballots_run = refl

get_hermes_bookkeeping-returns_example :
    (ds : List DelegateHermesDistribution) × (get_hermes_bookkeeping to_io tables 4 1 "r" 70
      ≡ ok ds)
get_hermes_bookkeeping-returns_example =
    get_hermes_bookkeeping-returns to_io tables 4 1 "r" 70 plans sources (("d", voters) ∷ [])
      plans_run sources_run ballots_run (((plan, refl, omega arith), tt), tt) (λ a. (a, refl))

entry_run : pay_delegate to_io 70 plans (("d", voters) ∷ []) ("d", (4, source) ∷ []) ≡ ok entry_of_d
unfolding fold_go pay_delegate pay_hermes_epoch pay_hermes_voter calculated_distributed_reward quo
    convert_voter_distribution_map_to_list ◌+ℤ◌ ◌-ℤ◌
entry_run = refl

all-IsFunded : (epoch : ℕ) → IsFunded ((4, plan) ∷ []) voters epoch
all-IsFunded epoch = record {
  votes = λ p h. ground (arith, h);
  proportional = λ p h. record {
    block = ground (arith, h);
    epoch = ground (arith, h);
    bonus = ground (arith, h);
  };
}

pay_delegate-refund_nonneg_example :
    entry_of_d.refund ≡ pos (rewards_of ((4, source) ∷ []) - paid_out entry_of_d)
pay_delegate-refund_nonneg_example =
    pay_delegate-refund_nonneg to_io 70 plans (("d", voters) ∷ []) "d" ((4, source) ∷ []) entry_of_d
      entry_run all-IsFunded

-- The same tables with a result that has no votes.
abbrev no_votes : Tables
no_votes = record tables {
  voting_results =
      record {
        epoch_number = 4;
        delegate_name = "d";
        reward_address = "r";
        total_weighted_votes = number 0;
        block_reward_percentage = eighty;
        epoch_reward_percentage = eighty;
        foundation_bonus_percentage = eighty;
        staking_address = "s";
      }
      ∷ [];
}

abbrev empty_plans : ByDelegate HermesDistributionPlan
empty_plans = ("d", (4, record plan { total_weighted_votes = 0 }) ∷ []) ∷ []

empty_plans_run :
    distribution_plan_by_reward_address no_votes 4 (last_epoch 4 1) "r" ≡ ok empty_plans
unfolding distribution_plan_by_reward_address fetch fold_go add_plan string_to_big_int add64 sub64
empty_plans_run = refl

empty_sources_run : account_rewards no_votes (search_pairs empty_plans) ≡ ok sources
unfolding account_rewards fetch fold_go add_account_reward string_to_big_int
empty_sources_run = refl

empty_ballots_run :
    weighted_votes_by_search_pairs no_votes (search_pairs empty_plans) ≡ ok (("d", voters) ∷ [])
unfolding weighted_votes_by_search_pairs fetch fold_go add_voter_of string_to_big_int
empty_ballots_run = refl

four-HasNoVotes : HasNoVotes ((4, record plan { total_weighted_votes = 0 }) ∷ []) voters 4
four-HasNoVotes = record {
  plan = record plan { total_weighted_votes = 0 };
  planned = refl;
  no_votes = refl;
  voter = ("u", 5);
  others = ("v", 4) ∷ [];
  voting = refl;
}

get_hermes_bookkeeping-zero_example :
    get_hermes_bookkeeping to_io no_votes 4 1 "r" 70 ≢ ok (entry_of_d ∷ [])
get_hermes_bookkeeping-zero_example =
    get_hermes_bookkeeping-zero to_io no_votes 4 1 "r" 70 empty_plans sources (("d", voters) ∷ [])
      "d" [] [] [] [] 4 source empty_plans_run empty_sources_run empty_ballots_run refl
      four-HasNoVotes (entry_of_d ∷ [])
