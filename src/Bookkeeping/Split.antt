-- ===== src/Bookkeeping/Split.antt =====
-- GetBookkeeping of queryprotocol/rewards/protocol.go: the reward of one delegate, epoch by epoch,
-- over the voters of the epoch. The conversion of an address (HexToAddress, then FromBytes of the
-- address package) is a parameter.
use iotex_analytics.Common.{
  ℕ, ◌*◌, Bool, none, some, List, [], ◌∷◌, String, Assoc, nat_eq, string_eq, lookup, add_to, Go, ok,
  err, message, bind_go, wrapped, fold_go, quo, ◌==◌, if◌then◌else◌, add64, sub64,
}
use iotex_analytics.Bookkeeping.Tables.{
  Tables, replaced, rewards_to_split, total_weighted_votes, voter_votes,
}

pub record RewardDistribution : Type 0 where
  pub voter_eth_address : String
  pub voter_iotex_address : String
  pub amount : ℕ

-- The inner loop for one voter.
unfoldable pub pay_voter : ℕ → ℕ → Assoc String ℕ → String × ℕ → Go (Assoc String ℕ)
pay_voter reward votes_of_all m (voter, votes) =
    bind_go (quo (reward * votes) votes_of_all) (λ amount. ok (add_to voter amount m))

-- The outer loop for one epoch. An epoch without votes is passed over.
unfoldable pub pay_epoch :
    Assoc ℕ ℕ → Assoc ℕ (Assoc String ℕ) → Assoc String ℕ → ℕ × ℕ → Go (Assoc String ℕ)
unfolding pay_voter
pay_epoch totals voters m (epoch, reward) = elim (lookup epoch totals) [
  | none ↦ err (message "Missing delegate total weighted votes information on epoch")
  | some votes_of_all ↦ if votes_of_all == 0 then ok m else elim (lookup epoch voters) [
    | none ↦ err (message "Missing voters' weighted votes information on epoch")
    | some info ↦ fold_go (pay_voter reward votes_of_all) m info
  ]
]

unfoldable pub split_rewards :
    Assoc ℕ ℕ → Assoc ℕ ℕ → Assoc ℕ (Assoc String ℕ) → Go (Assoc String ℕ)
unfolding pay_epoch
split_rewards rewards totals voters = fold_go (pay_epoch totals voters) [] rewards

abbrev pub listed : String → String → ℕ → RewardDistribution
listed voter io amount = record {
  voter_eth_address = voter;
  voter_iotex_address = io;
  amount = amount;
}

unfoldable pub convert_voter_distribution_map_to_list :
    (String → Go String) → Assoc String ℕ → Go (List RewardDistribution)
convert_voter_distribution_map_to_list to_io [] = ok []
convert_voter_distribution_map_to_list to_io ((voter, amount) ∷ m) =
    bind_go (replaced "failed to form IoTeX address from ETH address" (to_io voter)) (λ io.
      bind_go (convert_voter_distribution_map_to_list to_io m)
        (λ ds. ok (listed voter io amount ∷ ds)))

abbrev pub last_epoch : ℕ → ℕ → ℕ
last_epoch start count = sub64 (add64 start count) 1

-- The percentage, an int of the source, is one that is not negative: the resolver refuses others.
unfoldable pub get_bookkeeping :
    (String → Go String) → Tables → ℕ → ℕ → String → ℕ → Bool → Bool → Go (List RewardDistribution)
unfolding rewards_to_split total_weighted_votes voter_votes split_rewards
    convert_voter_distribution_map_to_list
get_bookkeeping to_io t start count name percentage with_block with_bonus =
    bind_go
      (wrapped "failed to get reward distribution map"
        (rewards_to_split t start (last_epoch start count) name percentage with_block with_bonus))
      (λ rewards.
        bind_go
          (wrapped "failed to get delegate total weighted votes"
            (total_weighted_votes t start (last_epoch start count) name))
          (λ totals.
            bind_go
              (wrapped "failed to get voters map"
                (voter_votes t start (last_epoch start count) name))
              (λ voters.
                bind_go (split_rewards rewards totals voters)
                  (λ m. convert_voter_distribution_map_to_list to_io m))))
