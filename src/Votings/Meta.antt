-- ===== src/Votings/Meta.antt =====
-- updateAggregateStaking of indexprotocol/votings/stakingprotocol.go: the row of the meta table.
use iotex_analytics.Common.{
  ℕ, ◌+◌, ◌≡◌, ◌∙◌, ap, refl, inl, inr, Bool, ◌||◌, Option, List, [], ◌∷◌, ◌++◌, String, Assoc, any,
  string_eq, pair_eq, lookup, insert, lookup-insert, sum_by, length, ok, wrapped, wrapped-eq-ok,
  bind_go-eq-ok, str_eq, if◌then◌else◌, arith,
}
use iotex_analytics.Store.{World, Run, lift, ◌>>=◌, exec, query, for_each, wrap_error}
use iotex_analytics.Store.Steps.{>>=-ok, >>=-then, exec-ok, wrap_error-ok}
use iotex_analytics.Store.Keeps.{Keeps, query-Keeps, >>=-Keeps, for_each-Keeps, exec-Keeps}
use iotex_analytics.Bookkeeping.Tables.{number, malformed}
use iotex_analytics.Paging.{VoteBucket, Candidate}
use iotex_analytics.Votings.Probation.{
  ProbationCandidateList, Arithmetic, convert_probation_list_to_local,
  staking_probation_list_to_map,
}
use iotex_analytics.Votings.Weights.{
  Weighing, Sums, is_some, self_stake_index_map, owner_address_to_name_map, add_votes,
  total_weighted,
}
use iotex_analytics.Votings.Tables.{VotingMeta, Votings}
use iotex_analytics.Votings.Profiles.{Profile}
use iotex_analytics.Votings.{
  Services, aggregate_row, insert_aggregate_voting, insert_voting_meta, update_aggregate_staking,
}
use iotex_analytics.Votings.Filtering.{Text-cases}
use iotex_analytics.Blocks.Delegates.{encode_name}
use iotex_analytics.Votings.Counted.{staked_in, add_votes-sums}

-- Some delegate has this owner.
abbrev pub owned : List Candidate → String → Bool
owned delegates address = any (λ (c : Candidate). str_eq c.owner_address address) delegates

-- What is staked in the buckets that vote for a delegate.
abbrev pub staked_for : List Candidate → List VoteBucket → ℕ
staked_for delegates = sum_by (λ (v : VoteBucket).
    if owned delegates v.candidate_address
    then (elim v.staked_amount [ number n ↦ n | malformed ↦ 0 ])
    else 0)

-- The votes of the delegates.
abbrev pub votes_for : List Candidate → ℕ
votes_for = sum_by (λ (c : Candidate). elim c.total_weighted_votes [ number n ↦ n | malformed ↦ 0 ])

total_weighted-sums :
    (delegates : List Candidate) (n k : ℕ)
    → total_weighted delegates n ≡ ok k
    → k ≡ n + votes_for delegates
unfolding total_weighted
total_weighted-sums [] n k e = ground (arith, e)
total_weighted-sums (c ∷ cs) n k e = elim (Text-cases c.total_weighted_votes) [
  | inl (j, h) ↦
      let rest : total_weighted cs (n + j) ≡ ok k = ground (arith, h, e) in
      rw h (omega (arith, total_weighted-sums cs (n + j) k rest))
  | inr h ↦ absurd (ground (arith, h, e))
]

owner_address_to_name_map-owned :
    (delegates : List Candidate) (m names : Assoc String String) (address : String)
    → owner_address_to_name_map delegates m ≡ ok names
    → is_some (lookup address names) ≡ (is_some (lookup address m) || owned delegates address)
unfolding owner_address_to_name_map
owner_address_to_name_map-owned [] m names address e = ground (arith, e)
owner_address_to_name_map-owned (c ∷ cs) m names address e =
    let (name, _, rest) =
      bind_go-eq-ok (encode_name c.name)
        (λ name. owner_address_to_name_map cs (insert c.owner_address name m)) e in
    ground (
      arith,
      owner_address_to_name_map-owned cs (insert c.owner_address name m) names address rest,
      lookup-insert c.owner_address address name m,
    )

insert_voting_meta_ok :
    {O : Type 0} (row : VotingMeta) (db db' : Votings O)
    → insert_voting_meta row db ≡ ok db'
    → db'.voting_meta ≡ db.voting_meta ++ row ∷ []
unfolding insert_voting_meta
insert_voting_meta_ok row db db' e = ground (arith, e)

module _ (g : Weighing) (self_stakes : Assoc ℕ Bool) (delegates : List Candidate)
    (names : Assoc String String) (named : owner_address_to_name_map delegates [] ≡ ok names) where
  staked_in-delegates :
      (votes : List VoteBucket) → staked_in g names self_stakes votes ≡ staked_for delegates votes
  staked_in-delegates [] = refl
  staked_in-delegates (v ∷ votes) =
      let same : is_some (lookup v.candidate_address names) ≡ owned delegates v.candidate_address =
        owner_address_to_name_map-owned delegates [] names v.candidate_address named in
      rw same (omega (arith, staked_in-delegates votes))

module _ {O : Type 0} (p : Profile) (s : Services O p.Percent) (a : Arithmetic) (g : Weighing)
    (votes : List VoteBucket) (delegates : List Candidate) (epoch : ℕ)
    (l : Option ProbationCandidateList) where
  abbrev Step : Type 0
  Step = Run (Votings O) (Unit {0}) (Unit {0})

  abbrev write_row : Assoc String String → (String × String) × ℕ → Step
  write_row names entry =
      lift (
        aggregate_row p s a names
          (staking_probation_list_to_map delegates (convert_probation_list_to_local l)) epoch entry)
      >>= λ row. exec (λ (db : Votings O). ok (insert_aggregate_voting row db))

  -- The rows of the votes are in another table.
  write_rows-Keeps :
      (metas : List VotingMeta) (names : Assoc String String) (entries : Assoc (String × String) ℕ)
      → Keeps (λ (db : Votings O). db.voting_meta ≡ metas) (for_each (write_row names) entries)
  unfolding insert_aggregate_voting
  write_rows-Keeps metas names entries =
      for_each-Keeps (λ db. db.voting_meta ≡ metas) _ entries
        (λ entry.
          >>=-Keeps (λ db. db.voting_meta ≡ metas) _ _ (λ w u. u)
            (λ row.
              exec-Keeps (λ db. db.voting_meta ≡ metas) _ (λ db db' u e. ground (arith, u, e))))

  abbrev meta_row : ℕ → ℕ → VotingMeta
  meta_row voted total = record {
    epoch_number = epoch;
    voted_token = voted;
    delegate_count = length delegates;
    total_weighted = total;
  }

  abbrev write_meta : ℕ → ℕ → Step
  write_meta voted total =
      wrap_error "failed to update voting meta table"
        (exec (insert_voting_meta (meta_row voted total)))

  write_meta_ok :
      (voted total : ℕ) (w : World (Votings O) (Unit {0}))
      → (write_meta voted total w).0 ≡ ok tt
      → (write_meta voted total w).1.db.voting_meta ≡ w.db.voting_meta ++ meta_row voted total ∷ []
  unfolding wrap_error
  write_meta_ok voted total w h =
      let write = exec (insert_voting_meta (meta_row voted total)) in
      insert_voting_meta_ok (meta_row voted total) w.db (write w).1.db (
        exec-ok (insert_voting_meta (meta_row voted total)) w
          (wrap_error-ok "failed to update voting meta table" write w h))

  -- What follows the loop over the buckets.
  abbrev write_all : Assoc String String → Sums → Step
  write_all names sums = query (λ (db : Votings O). tt {0}) >>= λ _.
      for_each (write_row names) sums.weighted_votes >>= λ _.
      lift (total_weighted delegates 0) >>= write_meta sums.total_voted

  write_all_ok :
      (names : Assoc String String) (sums : Sums) (w : World (Votings O) (Unit {0}))
      → (write_all names sums w).0 ≡ ok tt
      → (write_all names sums w).1.db.voting_meta
        ≡ w.db.voting_meta ++ meta_row sums.total_voted (votes_for delegates) ∷ []
  write_all_ok names sums w h =
      let ready : Run (Votings O) (Unit {0}) (Unit {0}) = query (λ (db : Votings O). tt {0}) in
      let rows : Step = for_each (write_row names) sums.weighted_votes in
      let totalled : Step = lift (total_weighted delegates 0) >>= write_meta sums.total_voted in
      let (_, read, rest) = >>=-ok ready (λ _. rows >>= λ _. totalled) w h in
      let w₁ = (ready w).1 in
      let same₁ : w₁.db.voting_meta ≡ w.db.voting_meta =
        query-Keeps (λ (db : Votings O). db.voting_meta ≡ w.db.voting_meta) (λ db. tt {0}) w refl in
      let (_, written, last) = >>=-ok rows (λ _. totalled) w₁ rest in
      let w₂ = (rows w₁).1 in
      let same₂ : w₂.db.voting_meta ≡ w.db.voting_meta =
        write_rows-Keeps w.db.voting_meta names sums.weighted_votes w₁ same₁ in
      let (total, summed, stored) =
        >>=-ok (lift (total_weighted delegates 0)) (write_meta sums.total_voted) w₂ last in
      let ran : write_all names sums w ≡ write_meta sums.total_voted total w₂ =
        >>=-then ready (λ _. rows >>= λ _. totalled) w tt read
        ∙ >>=-then rows (λ _. totalled) w₁ tt written
        ∙ >>=-then (lift (total_weighted delegates 0)) (write_meta sums.total_voted) w₂ total
            summed in
      let total_is : total ≡ votes_for delegates =
        omega (arith, total_weighted-sums delegates 0 total summed) in
      ap (λ q. q.1.db.voting_meta) ran
      ∙ write_meta_ok sums.total_voted total w₂ stored
      ∙ ap (λ m. m ++ meta_row sums.total_voted total ∷ []) same₂
      ∙ ap (λ n. w.db.voting_meta ++ meta_row sums.total_voted n ∷ []) total_is

-- When updateAggregateStaking returns nil, the meta table is as it was, and behind it one row of the
-- epoch, with what is staked in the buckets that vote for the owner of a delegate, the number of the
-- delegates, and the sum of their votes.
pub update_aggregate_staking-voting_meta :
    {O : Type 0} (p : Profile) (s : Services O p.Percent) (a : Arithmetic) (g : Weighing)
    (votes : List VoteBucket) (delegates : List Candidate) (epoch : ℕ)
    (l : Option ProbationCandidateList) (w : World (Votings O) (Unit {0}))
    → (update_aggregate_staking p s a g votes delegates epoch l w).0 ≡ ok tt
    → (update_aggregate_staking p s a g votes delegates epoch l w).1.db.voting_meta
      ≡ w.db.voting_meta
        ++ record {
          epoch_number = epoch;
          voted_token = staked_for delegates votes;
          delegate_count = length delegates;
          total_weighted = votes_for delegates;
        }
          ∷ []
unfolding update_aggregate_staking
update_aggregate_staking-voting_meta p s a g votes delegates epoch l w h =
    let self_stakes = self_stake_index_map delegates [] in
    let naming =
      wrapped "owner address to name map error" (owner_address_to_name_map delegates []) in
    let write = write_all p s a g votes delegates epoch l in
    let (names, n, rest) =
      >>=-ok (lift naming) (λ names. lift (add_votes g names self_stakes votes) >>= write names) w
        h in
    let (sums, b, stored) =
      >>=-ok (lift (add_votes g names self_stakes votes)) (write names) w rest in
    let named =
      wrapped-eq-ok "owner address to name map error" (owner_address_to_name_map delegates []) n in
    let voted : sums.total_voted ≡ staked_for delegates votes =
      (add_votes-sums g names self_stakes votes sums ("", "") b).1
      ∙ staked_in-delegates g self_stakes delegates names named votes in
    ap (λ q. q.1.db.voting_meta)
      (>>=-then (lift naming) (λ names. lift (add_votes g names self_stakes votes) >>= write names)
          w names n
        ∙ >>=-then (lift (add_votes g names self_stakes votes)) (write names) w sums b)
    ∙ write_all_ok p s a g votes delegates epoch l names sums w stored
    ∙ ap
        (λ v.
          w.db.voting_meta ++ meta_row p s a g votes delegates epoch l v (votes_for delegates) ∷ [])
        voted
