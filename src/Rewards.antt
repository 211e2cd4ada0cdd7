-- ===== src/Rewards.antt =====
-- breakdownRewards of indexprotocol/rewards/protocol.go: the rewards of one address, split over the
-- delegates that share it. Amounts and votes are numbers: they come from DECIMAL columns that hold
-- token amounts, and the texts that the source parses and prints stand for the same numbers.
pub mod Shares
pub mod Qualify
pub mod Breakdown
use iotex_analytics.Common.{
  ℕ, zero, suc, ◌+◌, ◌-◌, ◌*◌, ◌/◌, Bool, true, false, not, ◌&&◌, Option, none, some, List, [], ◌∷◌,
  String, Assoc, string_eq, lookup, lookup_or, insert, Go, ok, panic, bind_go, fold_go, mul64,
  div64, quo, ltb, leb, ◌==◌, if◌then◌else◌,
}

pub record Productivity : Type 0 where
  pub production : ℕ
  pub expected_production : ℕ

pub record Rewarding : Type 0 where
  pub num_delegates_for_epoch_reward : ℕ
  pub num_delegates_for_foundation_bonus : ℕ
  pub productivity_threshold : ℕ
  pub exempt_candidates_from_epoch_reward : List String

pub record CandidateVote : Type 0 where
  pub candidate_name : String
  pub total_weighted_votes : ℕ

-- The rewards of one account: block reward, epoch reward, foundation bonus.
pub record Amounts : Type 0 where
  pub block_reward : ℕ
  pub epoch_reward : ℕ
  pub foundation_bonus : ℕ

-- sort.Slice by votes in decreasing order. The order of equal votes is unspecified there; here they
-- stay in the order of the map, which is arbitrary itself.
insert_vote : CandidateVote → List CandidateVote → List CandidateVote
insert_vote c [] = c ∷ []
insert_vote c (d ∷ ds) =
    let rest = insert_vote c ds in
    if ltb d.total_weighted_votes c.total_weighted_votes then c ∷ d ∷ ds else d ∷ rest

unfoldable pub sort_votes : List CandidateVote → List CandidateVote
unfolding insert_vote
sort_votes [] = []
sort_votes (c ∷ cs) = insert_vote c (sort_votes cs)

unfoldable pub candidate_vote_list : Assoc String ℕ → List CandidateVote
candidate_vote_list [] = []
candidate_vote_list ((name, votes) ∷ m) =
    record { candidate_name = name; total_weighted_votes = votes } ∷ candidate_vote_list m

-- `candidateRank[candidateVote.CandidateName] = uint64(i + 1)`, from index `i` on.
unfoldable pub rank_from : ℕ → List CandidateVote → Assoc String ℕ → Assoc String ℕ
rank_from i [] ranks = ranks
rank_from i (c ∷ cs) ranks = rank_from (i + 1) cs (insert c.candidate_name (i + 1) ranks)

unfoldable pub candidate_rank : Assoc String ℕ → Assoc String ℕ
unfolding sort_votes candidate_vote_list rank_from
candidate_rank votes = rank_from 0 (sort_votes (candidate_vote_list votes)) []

-- `exemptionMap` of rebuildAccountRewardTable.
unfoldable pub exemption_map : List String → Assoc String Bool
exemption_map [] = []
exemption_map (name ∷ names) = insert name true (exemption_map names)

-- What the loops of breakdownRewards read.
pub record Setting : Type 0 where
  pub config : Rewarding
  pub weighted_votes : Assoc String ℕ
  pub exemption : Assoc String Bool
  pub rank : Assoc String ℕ
  pub productivity : Assoc String Productivity

-- What the first loop collects.
pub record Qualified : Type 0 where
  pub production_sum : ℕ
  pub qualified_total_votes : ℕ
  pub foundation_bonus_count : ℕ
  pub earn_block_reward : Assoc String Bool
  pub earn_epoch_reward : Assoc String Bool
  pub earn_foundation_bonus : Assoc String Bool

abbrev pub none_qualified : Qualified
none_qualified = record {
  production_sum = 0;
  qualified_total_votes = 0;
  foundation_bonus_count = 0;
  earn_block_reward = [];
  earn_epoch_reward = [];
  earn_foundation_bonus = [];
}

-- `productive`: a name without a row counts as productive. A zero expectation panics.
unfoldable pub is_productive : Setting → String → Go Bool
is_productive c name = elim (lookup name c.productivity) [
  | none ↦ ok true
  | some p ↦
      bind_go (div64 (mul64 p.production 100) p.expected_production)
        (λ percent. ok (not (ltb percent c.config.productivity_threshold)))
]

-- The production is a count of rows: its conversion to int64 is taken to keep it.
unfoldable pub count_production : Setting → String → Qualified → Qualified
count_production c name q = elim (lookup name c.productivity) [
  | none ↦ q
  | some p ↦ record q {
    production_sum = q.production_sum + p.production;
    earn_block_reward = insert name true q.earn_block_reward;
  }
]

-- A missing name has rank 0.
abbrev pub is_ranked : Setting → String → ℕ → Bool
is_ranked c name limit =
    leb (lookup_or 0 name c.rank) limit && not (lookup_or false name c.exemption)

-- Adding the votes of a name that has none dereferences a nil pointer.
unfoldable pub qualify_epoch : Setting → String → Bool → Qualified → Go Qualified
qualify_epoch c name productive q =
    if is_ranked c name c.config.num_delegates_for_epoch_reward && productive
    then elim (lookup name c.weighted_votes) [
      | none ↦ panic
      | some votes ↦ ok (record q {
        qualified_total_votes = q.qualified_total_votes + votes;
        earn_epoch_reward = insert name true q.earn_epoch_reward;
      })
    ]
    else ok q

unfoldable pub qualify_bonus : Setting → String → Qualified → Qualified
qualify_bonus c name q =
    if is_ranked c name c.config.num_delegates_for_foundation_bonus
    then record q {
      foundation_bonus_count = q.foundation_bonus_count + 1;
      earn_foundation_bonus = insert name true q.earn_foundation_bonus;
    }
    else q

-- The first loop of breakdownRewards, for one name.
unfoldable pub qualify : Setting → Qualified → String → Go Qualified
qualify c q name = bind_go (is_productive c name) (λ productive.
    bind_go (qualify_epoch c name productive (count_production c name q))
      (λ q'. ok (qualify_bonus c name q')))

abbrev pub production_of : Setting → String → ℕ
production_of c name = elim (lookup name c.productivity) [ none ↦ 0 | some p ↦ p.production ]

-- The rewards of one name in the second loop. A missing entry is a nil pointer.
unfoldable pub block_share : Setting → Qualified → ℕ → String → Go ℕ
block_share c q total name =
    if ltb 0 q.production_sum && lookup_or false name q.earn_block_reward
    then elim (lookup name c.productivity) [
      | none ↦ panic
      | some p ↦ quo (total * p.production) q.production_sum
    ]
    else ok 0

unfoldable pub epoch_share : Setting → Qualified → ℕ → String → Go ℕ
epoch_share c q total name =
    if ltb 0 q.qualified_total_votes && lookup_or false name q.earn_epoch_reward
    then elim (lookup name c.weighted_votes) [
      | none ↦ panic
      | some votes ↦ quo (total * votes) q.qualified_total_votes
    ]
    else ok 0

unfoldable pub bonus_share : Qualified → ℕ → String → Go ℕ
bonus_share q total name =
    if ltb 0 total && lookup_or false name q.earn_foundation_bonus
    then quo total q.foundation_bonus_count
    else ok 0

unfoldable pub share : Setting → Qualified → Amounts → String → Go Amounts
unfolding block_share epoch_share bonus_share
share c q totals name = bind_go (block_share c q totals.block_reward name) (λ block.
    bind_go (epoch_share c q totals.epoch_reward name) (λ epoch.
      bind_go (bonus_share q totals.foundation_bonus name) (λ bonus.
        ok (record { block_reward = block; epoch_reward = epoch; foundation_bonus = bonus }))))

-- A name with no reward gets no entry.
unfoldable pub give : String → Amounts → Assoc String Amounts → Assoc String Amounts
give name a m =
    if a.block_reward == 0 && (a.epoch_reward == 0 && a.foundation_bonus == 0)
    then m
    else insert name a m

-- The second loop of breakdownRewards, for one name.
unfoldable pub give_share :
    Setting → Qualified → Amounts → Assoc String Amounts → String → Go (Assoc String Amounts)
unfolding give
give_share c q totals m name = bind_go (share c q totals name) (λ a. ok (give name a m))

-- `productivity` is the answer of getProductivity for the epoch.
unfoldable pub breakdown_rewards :
    Rewarding
    → List String
    → Assoc String ℕ
    → Assoc String Bool
    → Go (Assoc String Productivity)
    → Amounts
    → Go (Assoc String Amounts)
unfolding candidate_rank qualify give_share
breakdown_rewards config names votes exemption productivity totals =
    bind_go productivity (λ productivity_map.
      let c : Setting = record {
        config = config;
        weighted_votes = votes;
        exemption = exemption;
        rank = candidate_rank votes;
        productivity = productivity_map;
      } in
      bind_go (fold_go (qualify c) none_qualified names)
        (λ q. fold_go (give_share c q totals) [] names))
