-- ===== src/Votings/Filtering.antt =====
-- filterStakingCandidates of indexprotocol/votings/probation.go: where the candidates come from.
use iotex_analytics.Common.{
  ℕ, ◌+◌, ◌-◌, ◌%◌, ◌≡◌, ◌∙◌, ap, sym, ◌⊎◌, refl, inl, inr, Bool-cases, Option-cases, none, some,
  List, [], ◌∷◌, String, Assoc, string_eq, ◌=?◌, lookup, insert, lookup-insert, All, ok, bind_go,
  bind_go-eq-ok, fold_go, arith,
}
use iotex_analytics.Bookkeeping.Tables.{Text, number, malformed}
use iotex_analytics.Paging.{u32, Candidate}
use iotex_analytics.Votings.Probation.{
  ProbationCandidateList, Arithmetic, Filtered, filtered_candidate, filter_candidate,
  probation_counts, candidates_of, filter_staking_candidates,
}

pub Text-cases : (t : Text) → ((n : ℕ) × (t ≡ number n)) ⊎ (t ≡ malformed)
Text-cases (number n) = inl (n, refl)
Text-cases malformed = inr refl

module _ (a : Arithmetic) (rate : ℕ) (on_probation : Assoc String ℕ) where
  -- The votes that probation leaves a candidate.
  abbrev pub votes_left : Candidate → ℕ → ℕ
  votes_left c n = elim (lookup c.operator_address on_probation) [
    | none ↦ n
    | some _ ↦ a.scale rate n
  ]

  -- A candidate is one of a list, with the votes that probation leaves it.
  abbrev pub ComesFrom : List Candidate → Candidate → Type 0
  ComesFrom [] d = ⊥
  ComesFrom (c ∷ cs) d =
      ((n : ℕ) × (c.total_weighted_votes ≡ number n)
        × (d ≡ record c { total_weighted_votes = number (votes_left c n) }))
      ⊎ ComesFrom cs d

  filtered_candidate-ok :
      (c : Candidate) (r : Candidate × ℕ)
      → filtered_candidate a rate on_probation c ≡ ok r
      → (n : ℕ) × (c.total_weighted_votes ≡ number n)
        × (r.0 ≡ record c { total_weighted_votes = number (votes_left c n) })
  unfolding filtered_candidate
  filtered_candidate-ok c r e = elim (Text-cases c.total_weighted_votes) [
    | inl (n, h) ↦
        let eta : c ≡ record c { total_weighted_votes = number n } =
          ap (λ t. record c { total_weighted_votes = t }) h in
        elim (Option-cases (lookup c.operator_address on_probation)) [
          | inl absent ↦
              let same : c ≡ r.0 = ground (arith, h, absent, e) in
              (n, h, rw (absent, votes_left) (sym same ∙ eta))
          | inr (k, found) ↦
              let same : record c { total_weighted_votes = number (a.scale rate n) } ≡ r.0 =
                ground (arith, h, found, e) in
              (n, h, rw (found, votes_left) (sym same))
        ]
    | inr h ↦ absurd (ground (arith, h, e))
  ]

  abbrev Values : (Candidate → Type 0) → Assoc String Candidate → Type 0
  Values Q m = (name : String) (d : Candidate) → lookup name m ≡ some d → Q d

  insert-Values :
      (Q : Candidate → Type 0) (m : Assoc String Candidate) (name : String) (d : Candidate)
      → Values Q m
      → Q d
      → Values Q (insert name d m)
  insert-Values Q m name d all here k x e = elim (Bool-cases (name =? k)) [
    | inl same ↦
        let eq : d ≡ x = ground (arith, lookup-insert name k d m, same, e) in rw (← eq) here
    | inr other ↦ all k x (ground (arith, lookup-insert name k d m, other, e))
  ]

  fold-Values :
      (Q : Candidate → Type 0) (cs : List Candidate) (f f' : Filtered)
      → ((d : Candidate) → ComesFrom cs d → Q d)
      → Values Q f.candidates_map
      → fold_go (filter_candidate a rate on_probation) f cs ≡ ok f'
      → Values Q f'.candidates_map
  unfolding fold_go filter_candidate
  fold-Values Q [] f f' h all e = let same : f ≡ f' = ground (arith, e) in rw (← same) all
  fold-Values Q (c ∷ cs) f f' h all e =
      let (next, first, rest) =
        bind_go-eq-ok (filter_candidate a rate on_probation f c)
          (λ g. fold_go (filter_candidate a rate on_probation) g cs) e in
      let (r, filtered, written) =
        bind_go-eq-ok (filtered_candidate a rate on_probation c)
          (λ (r : Candidate × ℕ). ok (record {
            candidates_map = insert c.operator_address r.0 f.candidates_map;
            updated_voting_power = insert c.operator_address r.1 f.updated_voting_power;
          }))
          first in
      let eq : insert c.operator_address r.0 f.candidates_map ≡ next.candidates_map =
        ground (arith, written) in
      fold-Values Q cs next f' (λ d there. h d (inr there))
        (rw (← eq) (
          insert-Values Q f.candidates_map c.operator_address r.0 all
            (h r.0 (inl (filtered_candidate-ok c r filtered)))))
        rest

candidates_of-All :
    (Q : Candidate → Type 0) (m : Assoc String Candidate) (names : List String)
    (cs : List Candidate)
    → ((name : String) (d : Candidate) → lookup name m ≡ some d → Q d)
    → candidates_of m names ≡ ok cs
    → All Q cs
unfolding candidates_of
candidates_of-All Q m [] cs all e =
    let none_left : [] ≡ cs = ground (arith, e) in rw (← none_left) tt
candidates_of-All Q m (name ∷ names) cs all e = elim (Option-cases (lookup name m)) [
  | inl absent ↦ absurd (ground (arith, absent, e))
  | inr (c, found) ↦
      let listed : bind_go (candidates_of m names) (λ ds. ok (c ∷ ds)) ≡ ok cs =
        ground (arith, found, e) in
      let (ds, rest, written) = bind_go-eq-ok (candidates_of m names) (λ ds. ok (c ∷ ds)) listed in
      let same : c ∷ ds ≡ cs = ground (arith, written) in
      rw (← same) (all name c found, candidates_of-All Q m names ds all rest)
]

-- Every candidate that filterStakingCandidates returns, whatever order util.Sort gives, is one of the
-- candidates given, all of it unchanged but the votes, which are a number: the votes given, or, where the
-- probation list has the operator's address, these votes scaled by 100 less the intensity rate.
pub filter_staking_candidates-ComesFrom :
    (a : Arithmetic) (candidates : List Candidate) (l : ProbationCandidateList) (height : ℕ)
    (result : List Candidate)
    → filter_staking_candidates a candidates l height ≡ ok result
    → All
        (ComesFrom a
          ((100 + u32 - l.intensity_rate) % u32)
          (probation_counts l.probation_list [])
          candidates)
        result
unfolding filter_staking_candidates
filter_staking_candidates-ComesFrom a candidates l height result e =
    let rate = (100 + u32 - l.intensity_rate) % u32 in
    let on_probation = probation_counts l.probation_list [] in
    let (f, folded, listed) =
      bind_go-eq-ok
        (fold_go (filter_candidate a rate on_probation)
          (record { candidates_map = []; updated_voting_power = [] }) candidates)
        (λ f. candidates_of f.candidates_map (a.sort f.updated_voting_power height)) e in
    candidates_of-All (ComesFrom a rate on_probation candidates) f.candidates_map
      (a.sort f.updated_voting_power height) result
      (fold-Values a rate on_probation (ComesFrom a rate on_probation candidates) candidates
        (record { candidates_map = []; updated_voting_power = [] }) f (λ d from. from)
        (λ name d none_yet. absurd (ground (arith, none_yet))) folded)
      listed
