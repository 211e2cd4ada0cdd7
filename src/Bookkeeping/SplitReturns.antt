-- ===== src/Bookkeeping/SplitReturns.antt =====
-- GetBookkeeping on complete data: it returns.
use iotex_analytics.Common.{
  ℕ, zero, suc, ◌*◌, ◌≡◌, ◌≢◌, refl, inl, inr, Bool, Option-cases, none, List, [], ◌∷◌, String,
  Assoc, nat_eq, string_eq, lookup, add_to, All, Go, ok, fold_go, fold_go-runs, quo_pos, ◌/◌, arith,
}
use iotex_analytics.Bookkeeping.Tables.{Tables, rewards_to_split, total_weighted_votes, voter_votes}
use iotex_analytics.Bookkeeping.Split.{
  RewardDistribution, listed, last_epoch, pay_voter, pay_epoch, split_rewards,
  convert_voter_distribution_map_to_list, get_bookkeeping,
}

-- The votes of an epoch are known, in total and by voter.
abbrev pub IsKnown : Assoc ℕ ℕ → Assoc ℕ (Assoc String ℕ) → ℕ × ℕ → Type 0
IsKnown totals voters (epoch, reward) = (lookup epoch totals ≢ none) × (lookup epoch voters ≢ none)

pub trivial : {A : Type 0} (xs : List A) → All (λ x. Unit {0}) xs
trivial [] = tt
trivial (x ∷ xs) = (tt, trivial xs)

pay_voter-runs :
    (reward t : ℕ) (m : Assoc String ℕ) (e : String × ℕ)
    → (m' : Assoc String ℕ) × (pay_voter reward (suc t) m e ≡ ok m') × Unit {0}
unfolding pay_voter
pay_voter-runs reward t m (voter, votes) = (
  add_to voter (reward * votes / suc t) m,
  rw (quo_pos (reward * votes) (suc t) (omega arith)) refl,
  tt,
)

fold-pay_voter-runs :
    (reward t : ℕ) (info m : Assoc String ℕ)
    → (m' : Assoc String ℕ) × (fold_go (pay_voter reward (suc t)) m info ≡ ok m') × Unit {0}
fold-pay_voter-runs reward t info m =
    fold_go-runs (λ m. Unit {0}) (λ e. Unit {0}) (pay_voter reward (suc t))
      (λ m e u v. pay_voter-runs reward t m e) m info tt (trivial info)

module _ (totals : Assoc ℕ ℕ) (voters : Assoc ℕ (Assoc String ℕ)) where
  pay_epoch-runs :
      (m : Assoc String ℕ) (e : ℕ × ℕ)
      → Unit {0}
      → IsKnown totals voters e
      → (m' : Assoc String ℕ) × (pay_epoch totals voters m e ≡ ok m') × Unit {0}
  unfolding pay_epoch
  pay_epoch-runs m (epoch, reward) u (k, l) = elim (Option-cases (lookup epoch totals)) [
    | inl n ↦ absurd (k n)
    | inr (zero, n) ↦ (m, rw (n, pay_epoch) refl, tt)
    | inr (suc t, n) ↦ elim (Option-cases (lookup epoch voters)) [
      | inl none_there ↦ absurd (l none_there)
      | inr (info, there) ↦
          let (m', e, done) = fold-pay_voter-runs reward t info m in
          (m', ground (arith, n, there, e), tt)
    ]
  ]

  split_rewards-runs :
      (rewards : Assoc ℕ ℕ)
      → All (IsKnown totals voters) rewards
      → (m : Assoc String ℕ) × (split_rewards rewards totals voters ≡ ok m)
  unfolding split_rewards
  split_rewards-runs rewards h =
      let (m, e, done) =
        fold_go-runs (λ m. Unit {0}) (IsKnown totals voters) (pay_epoch totals voters)
          pay_epoch-runs [] rewards tt h in
      (m, e)

pub convert-runs :
    (to_io : String → Go String)
    → ((a : String) → (b : String) × (to_io a ≡ ok b))
    → (m : Assoc String ℕ)
    → (ds : List RewardDistribution) × (convert_voter_distribution_map_to_list to_io m ≡ ok ds)
unfolding convert_voter_distribution_map_to_list
convert-runs to_io total [] = ([], refl)
convert-runs to_io total ((voter, amount) ∷ m) =
    let (io, e) = total voter in
    let (ds, e') = convert-runs to_io total m in (listed voter io amount ∷ ds, rw e (rw e' refl))

-- When the three reads return, the votes of every epoch with a reward are known, and every address
-- can be converted, GetBookkeeping returns its list.
pub get_bookkeeping-returns :
    (to_io : String → Go String) (t : Tables) (start count : ℕ) (name : String) (percentage : ℕ)
    (with_block with_bonus : Bool) (rewards totals : Assoc ℕ ℕ) (voters : Assoc ℕ (Assoc String ℕ))
    → rewards_to_split t start (last_epoch start count) name percentage with_block with_bonus
      ≡ ok rewards
    → total_weighted_votes t start (last_epoch start count) name ≡ ok totals
    → voter_votes t start (last_epoch start count) name ≡ ok voters
    → All (IsKnown totals voters) rewards
    → ((a : String) → (b : String) × (to_io a ≡ ok b))
    → (ds : List RewardDistribution) × (get_bookkeeping to_io t start count name percentage
          with_block with_bonus
        ≡ ok ds)
unfolding get_bookkeeping
get_bookkeeping-returns to_io t start count name percentage with_block with_bonus rewards totals
      voters r s v h total =
    let (m, split) = split_rewards-runs totals voters rewards h in
    let (ds, e) = convert-runs to_io total m in (ds, rw (r, s, v) (rw split e))
