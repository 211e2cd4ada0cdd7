-- ===== src/Votings/Probation.antt =====
-- indexprotocol/votings/probation.go: the delegates on probation, whose votes are scaled. The chain
-- client, big.Float and util.Sort are code outside the repository: they are parameters.
use iotex_analytics.Common.{
  ℕ, ◌+◌, ◌-◌, ◌%◌, Bool, Option, none, some, List, [], ◌∷◌, String, Assoc, Error, nat_eq,
  string_eq, pair_eq, lookup, insert, Go, ok, err, abort, message, panic, wrapped, bind_go, fold_go,
  sub64, ◌==◌, str_eq, if◌then◌else◌,
}
use iotex_analytics.Bookkeeping.Tables.{number, malformed}
use iotex_analytics.Paging.{u32, Candidate}

-- iotextypes.ProbationCandidateList: the rate, and the count of each address
pub record ProbationCandidateList : Type 0 where
  pub intensity_rate : ℕ
  pub probation_list : List (String × ℕ)

pub record ProbationList : Type 0 where
  pub epoch_number : ℕ
  pub intensity_rate : ℕ
  pub address : String
  pub count : ℕ

-- ReadState and proto.Unmarshal. `none` is an answer without data.
pub record PollClient : Type 1 where
  pub Data : Type 0
  pub probation_list_by_epoch : ℕ → Go (Option Data)
  -- Whether an error has the status NotFound.
  pub is_not_found : Error → Bool
  pub unmarshal : Data → Go ProbationCandidateList

abbrev pub no_probation : ProbationCandidateList
no_probation = record { intensity_rate = 0; probation_list = [] }

unfoldable pub fetch_probation_list : PollClient → ℕ → Go (Option ProbationCandidateList)
fetch_probation_list c epoch = elim (c.probation_list_by_epoch epoch) [
  | abort x ↦ abort x
  | err e ↦ if c.is_not_found e then ok none else err e
  | ok none ↦ ok (some no_probation)
  | ok (some d) ↦
      bind_go (wrapped "failed to unmarshal probationList" (c.unmarshal d)) (λ l. ok (some l))
]

-- INSERT IGNORE, with the primary key (epoch_number, address).
unfoldable pub insert_probation : ProbationList → List ProbationList → List ProbationList
insert_probation row [] = row ∷ []
insert_probation row (r ∷ rows) =
    let rest = insert_probation row rows in
    if r.epoch_number == row.epoch_number
    then if str_eq r.address row.address then r ∷ rows else r ∷ rest
    else r ∷ rest

abbrev pub local_rows : ℕ → List (String × ℕ) → List ProbationList
local_rows rate [] = []
local_rows rate ((address, count) ∷ l) =
    record { epoch_number = 0; intensity_rate = rate; address = address; count = count }
    ∷ local_rows rate l

unfoldable pub convert_probation_list_to_local :
    Option ProbationCandidateList → Option (List ProbationList)
convert_probation_list_to_local none = none
convert_probation_list_to_local (some l) = some (local_rows l.intensity_rate l.probation_list)

-- The loops over the candidates and over the list. The rate, `100 - IntensityRate` in uint64, is that
-- of the last row, and 0 when there is no candidate or no row.
abbrev pub ProbationMap : Type 0
ProbationMap = ℕ × Assoc String ℕ

unfoldable pub add_candidate_probation :
    Candidate → List ProbationList → ProbationMap → ProbationMap
add_candidate_probation c [] m = m
add_candidate_probation c (pb ∷ pbs) (rate, m) = add_candidate_probation c pbs (
  sub64 100 pb.intensity_rate,
  if str_eq pb.address c.operator_address then insert c.owner_address pb.count m else m,
)

unfoldable pub add_candidates : List ProbationList → List Candidate → ProbationMap → ProbationMap
unfolding add_candidate_probation
add_candidates pbs [] m = m
add_candidates pbs (c ∷ cs) m = add_candidates pbs cs (add_candidate_probation c pbs m)

unfoldable pub staking_probation_list_to_map :
    List Candidate → Option (List ProbationList) → ProbationMap
unfolding add_candidates
staking_probation_list_to_map candidates none = (0, [])
staking_probation_list_to_map candidates (some pbs) = add_candidates pbs candidates (0, [])

-- The votes as big.Float multiplies them by a hundredth of a number and cuts them to an integer, and
-- the names of a map in the order of util.Sort.
pub record Arithmetic : Type 0 where
  pub scale : ℕ → ℕ → ℕ
  pub sort : Assoc String ℕ → ℕ → List String

-- The candidate with the votes that probation leaves it, and these votes.
unfoldable pub filtered_candidate : Arithmetic → ℕ → Assoc String ℕ → Candidate → Go (Candidate × ℕ)
filtered_candidate a rate on_probation c = elim c.total_weighted_votes [
  | malformed ↦ err (message "total weighted votes convert error")
  | number n ↦ elim (lookup c.operator_address on_probation) [
    | none ↦ ok (c, n)
    | some _ ↦ ok (record c { total_weighted_votes = number (a.scale rate n) }, a.scale rate n)
  ]
]

abbrev pub probation_counts : List (String × ℕ) → Assoc String ℕ → Assoc String ℕ
probation_counts [] m = m
probation_counts ((address, count) ∷ l) m = probation_counts l (insert address count m)

pub record Filtered : Type 0 where
  pub candidates_map : Assoc String Candidate
  pub updated_voting_power : Assoc String ℕ

unfoldable pub filter_candidate :
    Arithmetic → ℕ → Assoc String ℕ → Filtered → Candidate → Go Filtered
unfolding filtered_candidate
filter_candidate a rate on_probation f c = bind_go (filtered_candidate a rate on_probation c) (λ r.
    ok (record {
      candidates_map = insert c.operator_address r.0 f.candidates_map;
      updated_voting_power = insert c.operator_address r.1 f.updated_voting_power;
    }))

-- The candidates by their names in order. A name that is not in the map would be a nil pointer in the
-- list, which panics as soon as it is read.
unfoldable pub candidates_of : Assoc String Candidate → List String → Go (List Candidate)
candidates_of m [] = ok []
candidates_of m (name ∷ names) = elim (lookup name m) [
  | none ↦ panic
  | some c ↦ bind_go (candidates_of m names) (λ cs. ok (c ∷ cs))
]

-- The rate is `100 - IntensityRate` in uint32.
unfoldable pub filter_staking_candidates :
    Arithmetic → List Candidate → ProbationCandidateList → ℕ → Go (List Candidate)
unfolding filter_candidate candidates_of
filter_staking_candidates a candidates l height =
    bind_go
      (fold_go
        (filter_candidate a ((100 + u32 - l.intensity_rate) % u32)
          (probation_counts l.probation_list []))
        (record { candidates_map = []; updated_voting_power = [] }) candidates)
      (λ f. candidates_of f.candidates_map (a.sort f.updated_voting_power height))
