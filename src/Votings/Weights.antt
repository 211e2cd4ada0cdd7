-- ===== src/Votings/Weights.antt =====
-- indexprotocol/votings/stakingprotocol.go: the weight of a bucket, and the sums of the votes.
use iotex_analytics.Common.{
  ℕ, ◌+◌, ◌*◌, ◌%◌, Bool, true, false, ◌&&◌, Option, none, some, List, [], ◌∷◌, String, Assoc,
  nat_eq, string_eq, pair_eq, lookup, insert, add_to, Go, ok, err, message, wrapped, bind_go,
  fold_go, leb, ltb, if◌then◌else◌,
}
use iotex_analytics.DelegateName.{encode_delegate_name}
use iotex_analytics.Bookkeeping.Tables.{number, malformed, string_to_big_int}
use iotex_analytics.Blocks.Delegates.{encode_name}
use iotex_analytics.Paging.{u32, VoteBucket, Candidate}

-- The floating-point arithmetic: the weight of a remaining time in seconds and of the setting for
-- auto-stake, the bonus for self-stake, and the integer part of a product.
pub record Weighing : Type 1 where
  pub Weight : Type 0
  pub one : Weight
  pub of_time : ℕ → Bool → Weight
  pub bonus : Weight → Weight
  pub times : ℕ → Weight → ℕ

-- The seconds of the staked days are a product in uint32.
unfoldable pub vote_weight : (g : Weighing) → VoteBucket → Bool → g.Weight
vote_weight g v self_stake =
    let remaining = v.staked_duration * 86400 % u32 in
    let weight = if ltb 0 remaining then g.of_time remaining v.auto_stake else g.one in
    if self_stake && v.auto_stake && leb 91 v.staked_duration then g.bonus weight else weight

unfoldable pub calculate_vote_weight : Weighing → VoteBucket → Bool → Go ℕ
unfolding vote_weight string_to_big_int
calculate_vote_weight g v self_stake =
    bind_go (string_to_big_int v.staked_amount) (λ n. ok (g.times n (vote_weight g v self_stake)))

unfoldable pub self_stake_index_map : List Candidate → Assoc ℕ Bool → Assoc ℕ Bool
self_stake_index_map [] m = m
self_stake_index_map (c ∷ cs) m = self_stake_index_map cs (insert c.self_stake_bucket_idx true m)

unfoldable pub owner_address_to_name_map :
    List Candidate → Assoc String String → Go (Assoc String String)
unfolding encode_delegate_name
owner_address_to_name_map [] m = ok m
owner_address_to_name_map (c ∷ cs) m =
    bind_go (encode_name c.name)
      (λ name. owner_address_to_name_map cs (insert c.owner_address name m))

-- sumOfWeightedVotes, by the candidate and the voter (the epoch and the flag are the same in every
-- key), and totalVoted
pub record Sums : Type 0 where
  pub weighted_votes : Assoc (String × String) ℕ
  pub total_voted : ℕ

abbrev pub is_some {ℓ} : {V : Type ℓ} → Option V → Bool
is_some none = false
is_some (some _) = true

-- One bucket. That of a candidate who is not active is passed over.
unfoldable pub add_vote :
    Weighing → Assoc String String → Assoc ℕ Bool → Sums → VoteBucket → Go Sums
unfolding calculate_vote_weight string_to_big_int
add_vote g names self_stakes sums v = elim (lookup v.candidate_address names) [
  | none ↦ ok sums
  | some _ ↦
      bind_go
        (wrapped "failed to calculate vote weight"
          (calculate_vote_weight g v (is_some (lookup v.index self_stakes))))
        (λ weighted. bind_go (string_to_big_int v.staked_amount) (λ staked. ok (record {
          weighted_votes = add_to (v.candidate_address, v.owner) weighted sums.weighted_votes;
          total_voted = sums.total_voted + staked;
        })))
]

unfoldable pub add_votes : Weighing → Assoc String String → Assoc ℕ Bool → List VoteBucket → Go Sums
unfolding add_vote
add_votes g names self_stakes votes =
    fold_go (add_vote g names self_stakes) (record { weighted_votes = []; total_voted = 0 }) votes

-- The sum of the votes of the candidates, as the meta table has it.
unfoldable pub total_weighted : List Candidate → ℕ → Go ℕ
unfolding string_to_big_int
total_weighted [] n = ok n
total_weighted (c ∷ cs) n = elim c.total_weighted_votes [
  | malformed ↦ err (message "total weighted votes convert error")
  | number k ↦ total_weighted cs (n + k)
]
