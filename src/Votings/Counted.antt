-- ===== src/Votings/Counted.antt =====
-- updateAggregateStaking of indexprotocol/votings/stakingprotocol.go: the sums of the votes.
use iotex_analytics.Common.{
  ℕ, ◌+◌, ◌≡◌, refl, inl, inr, Bool, Bool-cases, List, [], ◌∷◌, String, Assoc, nat_eq, string_eq,
  pair_eq, ◌=?◌, lookup, lookup_or, add_to, lookup_or-add_to, sum_by, ok, bind_go-eq-ok, fold_go,
  if◌then◌else◌, arith,
}
use iotex_analytics.Bookkeeping.Tables.{number, malformed, string_to_big_int}
use iotex_analytics.Paging.{VoteBucket}
use iotex_analytics.Votings.Weights.{
  Weighing, Sums, is_some, vote_weight, calculate_vote_weight, add_vote, add_votes,
}

module _ (g : Weighing) (names : Assoc String String) (self_stakes : Assoc ℕ Bool) where
  abbrev pub staked : VoteBucket → ℕ
  staked v = elim v.staked_amount [ number n ↦ n | malformed ↦ 0 ]

  abbrev weighted : VoteBucket → ℕ
  weighted v = g.times (staked v) (vote_weight g v (is_some (lookup v.index self_stakes)))

  -- The buckets of active candidates.
  abbrev pub is_counted : VoteBucket → Bool
  is_counted v = is_some (lookup v.candidate_address names)

  abbrev gives : String × String → VoteBucket → ℕ
  gives k v =
      if is_counted v then (if (v.candidate_address, v.owner) =? k then weighted v else 0) else 0

  -- The weighted votes that a voter gives a candidate.
  abbrev pub votes_of : String × String → List VoteBucket → ℕ
  votes_of k = sum_by (gives k)

  abbrev pub staked_in : List VoteBucket → ℕ
  staked_in = sum_by (λ v. if is_counted v then staked v else 0)

  -- One bucket that is counted.
  abbrev with_vote : Sums → VoteBucket → Sums
  with_vote sums v = record {
    weighted_votes = add_to (v.candidate_address, v.owner) (weighted v) sums.weighted_votes;
    total_voted = sums.total_voted + staked v;
  }

  add_vote-ok :
      (sums : Sums) (v : VoteBucket) (sums' : Sums)
      → add_vote g names self_stakes sums v ≡ ok sums'
      → sums' ≡ (if is_counted v then with_vote sums v else sums)
  unfolding add_vote calculate_vote_weight string_to_big_int
  add_vote-ok sums v sums' e = ground (arith, e)

  add_vote-adds :
      (k : String × String) (sums : Sums) (v : VoteBucket) (sums' : Sums)
      → add_vote g names self_stakes sums v ≡ ok sums'
      → (lookup_or 0 k sums'.weighted_votes ≡ lookup_or 0 k sums.weighted_votes + gives k v)
        × (sums'.total_voted ≡ sums.total_voted + (if is_counted v then staked v else 0))
  add_vote-adds k sums v sums' e =
      rw (add_vote-ok sums v sums' e) (elim (Bool-cases (is_counted v)) [
        | inl h ↦ rw h (
          lookup_or-add_to (v.candidate_address, v.owner) k (weighted v) sums.weighted_votes,
          refl,
        )
        | inr h ↦ rw h (omega arith, omega arith)
      ])

  fold-add_vote :
      (k : String × String) (votes : List VoteBucket) (sums sums' : Sums)
      → fold_go (add_vote g names self_stakes) sums votes ≡ ok sums'
      → (lookup_or 0 k sums'.weighted_votes ≡ lookup_or 0 k sums.weighted_votes + votes_of k votes)
        × (sums'.total_voted ≡ sums.total_voted + staked_in votes)
  unfolding fold_go
  fold-add_vote k [] sums sums' e =
      let same : sums ≡ sums' = ground (arith, e) in rw (← same) (omega arith, omega arith)
  fold-add_vote k (v ∷ votes) sums sums' e =
      let (next, first, rest) =
        bind_go-eq-ok (add_vote g names self_stakes sums v)
          (λ s. fold_go (add_vote g names self_stakes) s votes) e in
      let (votes_first, staked_first) = add_vote-adds k sums v next first in
      let (votes_rest, staked_rest) = fold-add_vote k votes next sums' rest in
      (omega (arith, votes_first, votes_rest), omega (arith, staked_first, staked_rest))

-- When the loop over the buckets returns, each pair of a candidate and a voter has the weights of the
-- buckets that the voter gives the candidate, and the total is what is staked in all buckets, in both
-- cases of those buckets whose candidate is active.
pub add_votes-sums :
    (g : Weighing) (names : Assoc String String) (self_stakes : Assoc ℕ Bool)
    (votes : List VoteBucket) (sums : Sums) (k : String × String)
    → add_votes g names self_stakes votes ≡ ok sums
    → (lookup_or 0 k sums.weighted_votes ≡ votes_of g names self_stakes k votes)
      × (sums.total_voted ≡ staked_in g names self_stakes votes)
unfolding add_votes
add_votes-sums g names self_stakes votes sums k e =
    let (a, b) =
      fold-add_vote g names self_stakes k votes (record { weighted_votes = []; total_voted = 0 })
        sums e in
    (omega (arith, a), omega (arith, b))
