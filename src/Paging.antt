-- ===== src/Paging.antt =====
-- GetAllStakingBuckets and GetAllStakingCandidates of indexprotocol/protocol.go: lists that the chain
-- client answers page by page. The request of one page, with its marshalling, is a parameter: the
-- code before and after the call only packs the offset and the limit and unpacks the answer.
pub mod Pages
use iotex_analytics.Common.{
  keep, ℕ, zero, suc, ◌+◌, ◌*◌, ◌%◌, Bool, true, false, not, Option, none, some, List, [], ◌∷◌,
  ◌++◌, String, Go, ok, err, abort, wrapped, length, ltb, str_eq, if◌then◌else◌,
}
use iotex_analytics.Bookkeeping.Tables.{Text}

abbrev pub u32 : ℕ
u32 = 4294967296

-- The loop over the pages, from page `i` on; `none` when the fuel runs out. The last page is the
-- first one that is not full.
unfoldable pub all_pages :
    {A : Type 0}
    → String
    → (A → Bool)
    → ℕ
    → (ℕ → ℕ → Go (List A))
    → ℕ
    → ℕ
    → List A
    → Option (Go (List A))
all_pages s f limit page zero i acc = none
all_pages s f limit page (suc fuel) i acc = elim (wrapped s (page (i * limit % u32) limit)) [
  | err e ↦ some (err e)
  | abort x ↦ some (abort x)
  | ok xs ↦ elim (ltb (length xs) limit) [
    | true ↦ some (ok (acc ++ keep f xs))
    | false ↦ all_pages s f limit page fuel ((i + 1) % u32) (acc ++ keep f xs)
  ]
]

-- A bucket, with the times at which it was staked and unstaked.
pub record VoteBucket : Type 0 where
  pub index : ℕ
  pub candidate_address : String
  pub owner : String
  pub staked_amount : Text
  pub staked_duration : ℕ
  pub auto_stake : Bool
  pub stake_start_time : ℕ
  pub unstake_start_time : ℕ

abbrev pub is_staked : VoteBucket → Bool
is_staked b = not (ltb b.stake_start_time b.unstake_start_time)

unfoldable pub get_all_staking_buckets :
    (ℕ → ℕ → Go (List VoteBucket)) → ℕ → Option (Go (List VoteBucket))
unfolding all_pages
get_all_staking_buckets page fuel = all_pages "failed to get bucket" is_staked 30000 page fuel 0 []

pub record Candidate : Type 0 where
  pub name : String
  pub owner_address : String
  pub operator_address : String
  pub reward_address : String
  pub total_weighted_votes : Text
  pub self_stake_bucket_idx : ℕ
  pub self_staking_tokens : String

abbrev pub has_self_stake : Candidate → Bool
has_self_stake c = not (str_eq c.self_staking_tokens "0")

unfoldable pub get_all_staking_candidates :
    (ℕ → ℕ → Go (List Candidate)) → ℕ → Option (Go (List Candidate))
unfolding all_pages
get_all_staking_candidates page fuel =
    all_pages "failed to get candidates" has_self_stake 20000 page fuel 0 []
