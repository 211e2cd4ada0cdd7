-- ===== src/Bookkeeping/Hermes.antt =====
-- GetHermesBookkeeping, GetAverageHermesStats and GetRewardSources of
-- queryprotocol/rewards/protocol.go. A missing entry of a map of pointers is a nil pointer, and using
-- it panics. The conversions of addresses are parameters.
use iotex_analytics.Common.{
  ℕ, ◌+◌, ◌*◌, ℤ, pos, ◌+ℤ◌, ◌-ℤ◌, Bool, true, not, ◌&&◌, ◌||◌, none, some, List, [], ◌∷◌, String,
  Assoc, nat_eq, string_eq, lookup, lookup_or, insert, add_to, length, Go, ok, panic, bind_go,
  wrapped, fold_go, quo, str_eq, if◌then◌else◌,
}
use iotex_analytics.Bookkeeping.Tables.{Tables, replaced}
use iotex_analytics.Bookkeeping.Split.{
  RewardDistribution, last_epoch, convert_voter_distribution_map_to_list,
}
use iotex_analytics.Bookkeeping.Plans.{
  HermesDistributionPlan, HermesDistributionSource, ByDelegate, search_pairs, account_rewards,
  distribution_plan_by_reward_address, distribution_plan_by_search_pairs,
  weighted_votes_by_search_pairs, weighted_votes_by_voter_address, calculated_distributed_reward,
}

pub record DelegateHermesDistribution : Type 0 where
  pub delegate_name : String
  pub distributions : List RewardDistribution
  pub staking_iotex_address : String
  pub voter_count : ℕ
  pub waive_service_fee : Bool
  pub refund : ℤ

-- The variables of the loop over the epochs of one delegate.
pub record Progress : Type 0 where
  pub voter_rewards : Assoc String ℕ
  pub balance : ℤ
  pub voters : Assoc String Bool
  pub fee_waiver : Bool
  pub staking_address : String

abbrev pub no_progress : Progress
no_progress = record {
  voter_rewards = [];
  balance = pos 0;
  voters = [];
  fee_waiver = true;
  staking_address = "";
}

-- The innermost loop for one voter.
unfoldable pub pay_hermes_voter : ℕ → ℕ → Progress → String × ℕ → Go Progress
pay_hermes_voter reward votes_of_all st (voter, votes) =
    bind_go (quo (reward * votes) votes_of_all) (λ amount. ok (record st {
      voter_rewards = add_to voter amount st.voter_rewards;
      balance = st.balance -ℤ pos amount;
      voters = insert voter true st.voters;
    }))

abbrev pub total_rewards : HermesDistributionSource → ℕ
total_rewards rewards = rewards.block_reward + rewards.epoch_reward + rewards.foundation_bonus

abbrev pub keeps_waiver : HermesDistributionPlan → ℕ → Bool
keeps_waiver plan threshold = not (
    plan.block_reward_percentage.is_below threshold
    || (plan.epoch_reward_percentage.is_below threshold
        || plan.foundation_bonus_percentage.is_below threshold))

-- The staking address is that of the first epoch.
abbrev pub staking_of : (String → Go String) → HermesDistributionPlan → String → Go String
staking_of to_io plan known =
    if str_eq known ""
    then replaced "failed to form IoTeX address from ETH address" (to_io plan.staking_address)
    else ok known

unfoldable pub pay_hermes_epoch :
    (String → Go String)
    → ℕ
    → Assoc ℕ HermesDistributionPlan
    → Assoc ℕ (Assoc String ℕ)
    → Progress
    → ℕ × HermesDistributionSource
    → Go Progress
unfolding pay_hermes_voter calculated_distributed_reward
pay_hermes_epoch to_io threshold plans voters st (epoch, rewards) = elim (lookup epoch plans) [
  | none ↦ panic
  | some plan ↦ bind_go (staking_of to_io plan st.staking_address) (λ address.
      fold_go
        (pay_hermes_voter (calculated_distributed_reward plan rewards) plan.total_weighted_votes)
        (record st {
          balance = st.balance +ℤ pos (total_rewards rewards);
          fee_waiver = st.fee_waiver && keeps_waiver plan threshold;
          staking_address = address;
        })
        (lookup_or [] epoch voters))
]

unfoldable pub pay_delegate :
    (String → Go String)
    → ℕ
    → ByDelegate HermesDistributionPlan
    → ByDelegate (Assoc String ℕ)
    → String × Assoc ℕ HermesDistributionSource
    → Go DelegateHermesDistribution
unfolding pay_hermes_epoch convert_voter_distribution_map_to_list
pay_delegate to_io threshold plans voters (name, rewards) =
    bind_go
      (fold_go
        (pay_hermes_epoch to_io threshold (lookup_or [] name plans) (lookup_or [] name voters))
        no_progress rewards)
      (λ st.
        bind_go
          (wrapped "failed to convert voter distribution map to list"
            (convert_voter_distribution_map_to_list to_io st.voter_rewards))
          (λ ds. ok (record {
            delegate_name = name;
            distributions = ds;
            staking_iotex_address = st.staking_address;
            voter_count = length st.voters;
            waive_service_fee = st.fee_waiver;
            refund = st.balance;
          })))

-- `for … { x, err := f(y); if err != nil { return nil, err }; xs = append(xs, x) }`
abbrev pub collect {ℓ κ} : {A : Type ℓ} {B : Type κ} → (A → Go B) → List A → Go (List B)
collect f [] = ok []
collect f (x ∷ xs) = bind_go (f x) (λ y. bind_go (collect f xs) (λ ys. ok (y ∷ ys)))

unfoldable pub get_hermes_bookkeeping :
    (String → Go String) → Tables → ℕ → ℕ → String → ℕ → Go (List DelegateHermesDistribution)
unfolding distribution_plan_by_reward_address account_rewards weighted_votes_by_search_pairs
    pay_delegate
get_hermes_bookkeeping to_io t start count address threshold =
    bind_go
      (wrapped "failed to get reward distribution plan"
        (distribution_plan_by_reward_address t start (last_epoch start count) address))
      (λ plans.
        bind_go (wrapped "failed to get account rewards" (account_rewards t (search_pairs plans)))
          (λ rewards.
            bind_go
              (wrapped "failed to get voter votes"
                (weighted_votes_by_search_pairs t (search_pairs plans)))
              (λ voters. collect (pay_delegate to_io threshold plans voters) rewards)))

pub record DelegateHermesAverage : Type 0 where
  pub delegate_name : String
  pub reward_distribution : ℕ
  pub total_weighted_votes : ℕ

-- The two sums over the epochs of a delegate.
unfoldable pub add_averages :
    Assoc ℕ HermesDistributionPlan → ℕ × ℕ → ℕ × HermesDistributionSource → Go (ℕ × ℕ)
unfolding calculated_distributed_reward
add_averages plans (rewards_sum, votes_sum) (epoch, rewards) = elim (lookup epoch plans) [
  | none ↦ panic
  | some plan ↦ ok (
    rewards_sum + calculated_distributed_reward plan rewards,
    votes_sum + plan.total_weighted_votes,
  )
]

unfoldable pub average_delegate :
    ByDelegate HermesDistributionPlan
    → String × Assoc ℕ HermesDistributionSource
    → Go DelegateHermesAverage
unfolding add_averages
average_delegate plans (name, rewards) =
    bind_go (fold_go (add_averages (lookup_or [] name plans)) (0, 0) rewards) (λ sums.
      bind_go (quo sums.0 (length rewards)) (λ reward.
        bind_go (quo sums.1 (length rewards)) (λ votes. ok (record {
          delegate_name = name;
          reward_distribution = reward;
          total_weighted_votes = votes;
        }))))

unfoldable pub get_average_hermes_stats : Tables → ℕ → ℕ → String → Go (List DelegateHermesAverage)
unfolding distribution_plan_by_reward_address account_rewards average_delegate
get_average_hermes_stats t start count address =
    bind_go
      (wrapped "failed to get reward distribution plan"
        (distribution_plan_by_reward_address t start (last_epoch start count) address))
      (λ plans.
        bind_go (wrapped "failed to get account rewards" (account_rewards t (search_pairs plans)))
          (λ rewards. collect (average_delegate plans) rewards))

pub record DelegateAmount : Type 0 where
  pub delegate_name : String
  pub amount : ℕ

-- The inner loop of GetRewardSources for one epoch.
unfoldable pub add_source :
    Assoc ℕ HermesDistributionPlan → Assoc ℕ ℕ → ℕ → ℕ × HermesDistributionSource → Go ℕ
unfolding calculated_distributed_reward
add_source plans votes sum (epoch, rewards) = elim (lookup epoch plans) [
  | none ↦ panic
  | some plan ↦ elim (lookup epoch votes) [
    | none ↦ panic
    | some weighted ↦
        bind_go
          (quo (calculated_distributed_reward plan rewards * weighted) plan.total_weighted_votes)
          (λ amount. ok (sum + amount))
  ]
]

unfoldable pub source_of :
    ByDelegate HermesDistributionPlan
    → ByDelegate ℕ
    → String × Assoc ℕ HermesDistributionSource
    → Go DelegateAmount
unfolding add_source
source_of plans votes (name, rewards) =
    bind_go (fold_go (add_source (lookup_or [] name plans) (lookup_or [] name votes)) 0 rewards)
      (λ sum. ok (record { delegate_name = name; amount = sum }))

-- `to_evm` converts the address of the voter into the hex digits of the other kind.
unfoldable pub get_reward_sources :
    (String → Go String) → Tables → ℕ → ℕ → String → Go (List DelegateAmount)
unfolding weighted_votes_by_voter_address account_rewards distribution_plan_by_search_pairs
    source_of
get_reward_sources to_evm t start count address =
    bind_go (wrapped "failed to convert IoTeX address to ETH address" (to_evm address)) (λ voter.
      bind_go
        (wrapped "failed to get voter's weighted votes"
          (weighted_votes_by_voter_address t start (last_epoch start count) voter))
        (λ votes.
          bind_go (wrapped "failed to get account rewards" (account_rewards t (search_pairs votes)))
            (λ rewards.
              bind_go
                (wrapped "failed to get reward distribution plan"
                  (distribution_plan_by_search_pairs t (search_pairs votes)))
                (λ plans. collect (source_of plans votes) rewards))))
