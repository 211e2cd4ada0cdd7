-- ===== src/Rewards/Qualify.antt =====
-- The first loop of breakdownRewards: its sums are those of the weights of the names, and only a
-- name with a positive weight, or a bonus, is marked.
use iotex_analytics.Common.{
  ℕ, ◌+◌, ◌<◌, ◌≡◌, ◌≢◌, Bool, true, false, ◌&&◌, none, List, [], ◌∷◌, String, Assoc, string_eq,
  lookup, lookup_or, insert, lookup-insert, ◌=?◌, eq_iff, sum_by, ok, fold_go, bind_go-eq-ok, arith,
  if◌then◌else◌,
}
use iotex_analytics.Rewards.{
  Setting, Qualified, none_qualified, is_productive, count_production, is_ranked, qualify_epoch,
  qualify_bonus, qualify, production_of,
}

-- The tests of the loop for the epoch reward, and the weight of a name there.
abbrev pub passes_epoch : Setting → String → Bool
passes_epoch c name = elim (is_productive c name) [
  | ok productive ↦ is_ranked c name c.config.num_delegates_for_epoch_reward && productive
  | _ ↦ false
]

abbrev pub epoch_weight : Setting → String → ℕ
epoch_weight c name = if passes_epoch c name then lookup_or 0 name c.weighted_votes else 0

abbrev pub bonus_weight : Setting → String → ℕ
bonus_weight c name = if is_ranked c name c.config.num_delegates_for_foundation_bonus then 1 else 0

-- Marks stand only for names that pass, and then what the second loop reads is there.
pub record IsSound (c : Setting) (q : Qualified) : Type 0 where
  pub block :
      (name : String)
      → lookup_or false name q.earn_block_reward ≡ true
      → (lookup name c.productivity) ≢ none
  pub epoch :
      (name : String)
      → lookup_or false name q.earn_epoch_reward ≡ true
      → (passes_epoch c name ≡ true) × ((lookup name c.weighted_votes) ≢ none)
  pub bonus :
      (name : String)
      → lookup_or false name q.earn_foundation_bonus ≡ true
      → (is_ranked c name c.config.num_delegates_for_foundation_bonus ≡ true)
        × (0 < q.foundation_bonus_count)

-- A name that is marked now was marked before, or is the one that was added.
lookup_or-insert :
    (k j : String) (m : Assoc String Bool)
    → lookup_or false j (insert k true m) ≡ (if k =? j then true else lookup_or false j m)
lookup_or-insert k j m = rw (lookup-insert k j true m, lookup_or) (ground arith)

module _ (c : Setting) where
  pub qualify-sums :
      (name : String) (q q' : Qualified)
      → qualify c q name ≡ ok q'
      → (q'.production_sum ≡ q.production_sum + production_of c name)
        × (q'.qualified_total_votes ≡ q.qualified_total_votes + epoch_weight c name)
        × (q'.foundation_bonus_count ≡ q.foundation_bonus_count + bonus_weight c name)
  unfolding qualify qualify_epoch qualify_bonus count_production
  qualify-sums name q q' h = ground (arith, h)

  pub qualify-IsSound :
      (name : String) (q q' : Qualified) → qualify c q name ≡ ok q' → IsSound c q → IsSound c q'
  unfolding qualify qualify_epoch qualify_bonus count_production
  qualify-IsSound name q q' h s = record {
    block = λ j m.
        ground (arith, h, s.block j, lookup_or-insert name j q.earn_block_reward, eq_iff name j);
    epoch = λ j m.
        ground (arith, h, s.epoch j, lookup_or-insert name j q.earn_epoch_reward, eq_iff name j);
    bonus = λ j m.
        ground
          (arith, h, s.bonus j, lookup_or-insert name j q.earn_foundation_bonus, eq_iff name j);
  }

  -- The whole first loop.
  pub record Collected (names : List String) (q q' : Qualified) : Type 0 where
    pub production : q'.production_sum ≡ q.production_sum + sum_by (production_of c) names
    pub votes : q'.qualified_total_votes ≡ q.qualified_total_votes + sum_by (epoch_weight c) names
    pub count : q'.foundation_bonus_count ≡ q.foundation_bonus_count + sum_by (bonus_weight c) names
    pub sound : IsSound c q'

  pub fold-Collected :
      (names : List String) (q q' : Qualified)
      → IsSound c q
      → fold_go (qualify c) q names ≡ ok q'
      → Collected names q q'
  unfolding fold_go
  fold-Collected [] q q' s h = record {
    production = ground (arith, h);
    votes = ground (arith, h);
    count = ground (arith, h);
    sound = ground (arith, h, s);
  }
  fold-Collected (name ∷ names) q q' s h =
      let (q₁, first, rest) =
        bind_go-eq-ok (qualify c q name) (λ b. fold_go (qualify c) b names) h in
      let one = qualify-sums name q q₁ first in
      let more = fold-Collected names q₁ q' (qualify-IsSound name q q₁ first s) rest in
      record {
        production = omega (arith, one, more.production);
        votes = omega (arith, one, more.votes);
        count = omega (arith, one, more.count);
        sound = more.sound;
      }

pub none_qualified-IsSound : (c : Setting) → IsSound c none_qualified
none_qualified-IsSound c = record {
  block = λ name m. cc;
  epoch = λ name m. cc;
  bonus = λ name m. cc;
}
