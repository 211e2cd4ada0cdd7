-- ===== src/Rewards/Breakdown.antt =====
-- breakdownRewards: what the delegates get together, and that a run on complete data returns.
use iotex_analytics.Common.{
  ℕ, zero, suc, ◌+◌, ◌*◌, ◌/◌, ◌≤◌, ◌<◌, ◌≡◌, ◌≢◌, refl, inl, inr, Bool, true, not, none, some,
  List, [], ◌∷◌, String, Assoc, string_eq, lookup, insert, sum_by, All, ok, fold_go, fold_go-runs,
  Go-cases, Option-cases, bind_go-eq-ok, quo, arith, ltb, if◌then◌else◌, mul64, div64_pos,
}
use native.Mathlib.Nat.{le_trans}
use iotex_analytics.Rewards.Shares.{shares_le, sum_by_mono}
use iotex_analytics.Rewards.Qualify.{
  IsSound, fold-Collected, none_qualified-IsSound, epoch_weight, bonus_weight, qualify-IsSound,
}
use iotex_analytics.Rewards.{
  Productivity, Setting, Qualified, Amounts, Rewarding, none_qualified, is_productive,
  qualify_epoch, qualify, production_of, block_share, epoch_share, bonus_share, share, give,
  give_share, breakdown_rewards, candidate_rank,
}

-- What a field of the entries comes to over a map.
abbrev pub paid : (Amounts → ℕ) → Assoc String Amounts → ℕ
paid f = sum_by (λ (p : String × Amounts). f p.1)

-- The share of a total by weight, none when the weights sum up to zero.
abbrev part : (t s : ℕ) (w : ℕ) → ℕ
part t s w = if ltb 0 s then t * w / s else 0

none_paid : (t : ℕ) (w : String → ℕ) (names : List String) → sum_by (λ x. part t 0 (w x)) names ≤ t
none_paid t w [] = omega arith
none_paid t w (x ∷ xs) = omega (arith, none_paid t w xs)

parts_le :
    (t s : ℕ) (w : String → ℕ) (names : List String)
    → s ≡ 0 + sum_by w names
    → sum_by (λ x. part t s (w x)) names ≤ t
parts_le t zero w names e = none_paid t w names
parts_le t (suc s) w names e =
    le_trans
      (sum_by_mono (λ x. part t (suc s) (w x)) (λ x. t * w x / suc s) (λ x. ground arith) names)
      (shares_le t (suc s) w names (omega arith) (omega (arith, e)))

pub paid-insert :
    (f : Amounts → ℕ) (name : String) (a : Amounts) (m : Assoc String Amounts)
    → paid f (insert name a m) ≤ paid f m + f a
paid-insert f name a [] = omega arith
paid-insert f name a ((k, b) ∷ m) = ground (arith, paid-insert f name a m)

paid-give :
    (f : Amounts → ℕ) (name : String) (a : Amounts) (m : Assoc String Amounts)
    → paid f (give name a m) ≤ paid f m + f a
unfolding give
paid-give f name a m = ground (arith, paid-insert f name a m)

module _ (c : Setting) (q : Qualified) (totals : Amounts) where
  fold-paid :
      (f : Amounts → ℕ) (g : String → ℕ)
      → ((name : String) (a : Amounts) → share c q totals name ≡ ok a → f a ≤ g name)
      → (names : List String) (m m' : Assoc String Amounts)
      → fold_go (give_share c q totals) m names ≡ ok m'
      → paid f m' ≤ paid f m + sum_by g names
  unfolding fold_go give_share
  fold-paid f g le [] m m' h = ground (arith, h)
  fold-paid f g le (name ∷ names) m m' h =
      let (m₁, first, rest) =
        bind_go-eq-ok (give_share c q totals m name) (λ b. fold_go (give_share c q totals) b names)
          h in
      let (a, e, given) = bind_go-eq-ok (share c q totals name) (λ a. ok (give name a m)) first in
      let step : paid f m₁ ≤ paid f m + f a = ground (arith, given, paid-give f name a m) in
      omega (arith, le name a e, fold-paid f g le names m₁ m' rest, step)

  share-block_le :
      (name : String) (a : Amounts)
      → share c q totals name ≡ ok a
      → a.block_reward ≤ part totals.block_reward q.production_sum (production_of c name)
  unfolding share block_share epoch_share bonus_share quo
  share-block_le name a h = ground (arith, h)

  share-epoch_le :
      (name : String) (a : Amounts)
      → IsSound c q
      → share c q totals name ≡ ok a
      → a.epoch_reward ≤ part totals.epoch_reward q.qualified_total_votes (epoch_weight c name)
  unfolding share block_share epoch_share bonus_share quo
  share-epoch_le name a s h = ground (arith, h, s.epoch name)

  share-bonus_le :
      (name : String) (a : Amounts)
      → IsSound c q
      → share c q totals name ≡ ok a
      → a.foundation_bonus
        ≤ part totals.foundation_bonus q.foundation_bonus_count (bonus_weight c name)
  unfolding share block_share epoch_share bonus_share quo
  share-bonus_le name a s h = ground (arith, h, s.bonus name)

-- What the loops of breakdownRewards need to return: votes for the name, and an expectation above
-- zero where the name has a row of productivity.
abbrev pub IsComplete : Assoc String ℕ → Assoc String Productivity → String → Type 0
IsComplete votes productivity name =
    (lookup name votes ≢ none)
    × ((p : Productivity) → lookup name productivity ≡ some p → 0 < p.expected_production)

module _ (c : Setting) where
  is_productive-runs :
      (name : String)
      → IsComplete c.weighted_votes c.productivity name
      → (b : Bool) × (is_productive c name ≡ ok b)
  unfolding is_productive
  is_productive-runs name (v, e) = elim (Option-cases (lookup name c.productivity)) [
    | inl n ↦ (true, rw (n, is_productive) refl)
    | inr (p, h) ↦ (
      not (ltb (mul64 p.production 100 / p.expected_production) c.config.productivity_threshold),
      rw (h, is_productive)
          (rw (div64_pos (mul64 p.production 100) p.expected_production (e p h)) refl),
    )
  ]

  qualify-runs :
      (q : Qualified) (name : String)
      → IsSound c q
      → IsComplete c.weighted_votes c.productivity name
      → (q' : Qualified) × (qualify c q name ≡ ok q') × IsSound c q'
  unfolding qualify qualify_epoch
  qualify-runs q name s (v, e) =
      let (b, r) = is_productive-runs name (v, e) in
      elim (Go-cases (qualify c q name)) [
        | inl (q', p) ↦ (q', p, qualify-IsSound c name q q' p s)
        | inr (inl (x, p)) ↦ absurd (ground (arith, p, v, r))
        | inr (inr (x, p)) ↦ absurd (ground (arith, p, v, r))
      ]

  share-runs :
      (q : Qualified) (totals : Amounts) (name : String)
      → IsSound c q
      → (a : Amounts) × (share c q totals name ≡ ok a)
  unfolding share block_share epoch_share bonus_share quo
  share-runs q totals name s = elim (Go-cases (share c q totals name)) [
    | inl r ↦ r
    | inr (inl (x, p)) ↦ absurd (ground (arith, p, s.block name, s.epoch name, s.bonus name))
    | inr (inr (x, p)) ↦ absurd (ground (arith, p, s.block name, s.epoch name, s.bonus name))
  ]

  give_share-runs :
      (q : Qualified) (totals : Amounts) (m : Assoc String Amounts) (name : String)
      → IsSound c q
      → (m' : Assoc String Amounts) × (give_share c q totals m name ≡ ok m') × Unit {0}
  unfolding give_share
  give_share-runs q totals m name s =
      let (a, e) = share-runs q totals name s in (give name a m, rw e refl, tt)

All-names : (names : List String) → All (λ (name : String). Unit {0}) names
All-names [] = tt
All-names (name ∷ names) = (tt, All-names names)

module _ (config : Rewarding) (names : List String) (votes : Assoc String ℕ)
    (exemption : Assoc String Bool) (productivity : Assoc String Productivity)
    (totals : Amounts) where
  -- The setting that breakdownRewards builds.
  abbrev setting : Setting
  setting = record {
    config = config;
    weighted_votes = votes;
    exemption = exemption;
    rank = candidate_rank votes;
    productivity = productivity;
  }

  -- Of each kind of reward, what the entries of the answer get together is at most the total of the
  -- address, whatever the names, the votes, the productivity and the exemptions are.
  pub breakdown_rewards-conserves :
      (m : Assoc String Amounts)
      → breakdown_rewards config names votes exemption (ok productivity) totals ≡ ok m
      → (paid (λ a. a.block_reward) m ≤ totals.block_reward)
        × (paid (λ a. a.epoch_reward) m ≤ totals.epoch_reward)
        × (paid (λ a. a.foundation_bonus) m ≤ totals.foundation_bonus)
  unfolding breakdown_rewards
  breakdown_rewards-conserves m h =
      let (q, first, second) =
        bind_go-eq-ok (fold_go (qualify setting) none_qualified names)
          (λ q. fold_go (give_share setting q totals) [] names) h in
      let all =
        fold-Collected setting names none_qualified q (none_qualified-IsSound setting) first in
      (
        omega (
          arith,
          (fold-paid setting q totals (λ a. a.block_reward)
              (λ x. part totals.block_reward q.production_sum (production_of setting x))
              (share-block_le setting q totals) names [] m second),
          (parts_le totals.block_reward q.production_sum (production_of setting) names
              all.production),
        ),
        omega (
          arith,
          (fold-paid setting q totals (λ a. a.epoch_reward)
              (λ x. part totals.epoch_reward q.qualified_total_votes (epoch_weight setting x))
              (λ name a. share-epoch_le setting q totals name a all.sound) names [] m second),
          (parts_le totals.epoch_reward q.qualified_total_votes (epoch_weight setting) names
              all.votes),
        ),
        omega (
          arith,
          (fold-paid setting q totals (λ a. a.foundation_bonus)
              (λ x. part totals.foundation_bonus q.foundation_bonus_count (bonus_weight setting x))
              (λ name a. share-bonus_le setting q totals name a all.sound) names [] m second),
          (parts_le totals.foundation_bonus q.foundation_bonus_count (bonus_weight setting) names
              all.count),
        ),
      )

  -- With votes for every name and positive expectations, breakdownRewards returns.
  pub breakdown_rewards-returns :
      All (IsComplete votes productivity) names
      → (m : Assoc String Amounts) × (breakdown_rewards config names votes exemption
            (ok productivity)
            totals
          ≡ ok m)
  unfolding breakdown_rewards
  breakdown_rewards-returns h =
      let (q, e, s) =
        fold_go-runs (IsSound setting) (IsComplete votes productivity) (qualify setting)
          (qualify-runs setting) none_qualified names (none_qualified-IsSound setting) h in
      let (m, e', s') =
        fold_go-runs (λ (m : Assoc String Amounts). Unit {0}) (λ (name : String). Unit {0})
          (give_share setting q totals) (λ m name u v. give_share-runs setting q totals m name s) []
          names tt (All-names names) in
      (m, rw e e')
