-- ===== src/Rewards/Shares.antt =====
-- Pro rata shares rounded down: together they are at most the total.
use native.Mathlib.Nat.{div-mul-le_self, le_of_mul-le-mul_right, mul-le-mul_left, le_trans}
use iotex_analytics.Common.{ℕ, ◌*◌, ◌/◌, ◌≤◌, ◌<◌, List, [], ◌∷◌, sum_by, arith}

module _ {ℓ} {A : Type ℓ} where
  sum_shares :
      (t s : ℕ) (w : A → ℕ) (xs : List A) → sum_by (λ x. t * w x / s) xs * s ≤ t * sum_by w xs
  sum_shares t s w [] = omega arith
  sum_shares t s w (x ∷ xs) = omega (arith, sum_shares t s w xs, div-mul-le_self (t * w x) s)

  -- Shares of `t` by weights that sum up to at most `s`.
  pub shares_le :
      (t s : ℕ) (w : A → ℕ) (xs : List A)
      → 0 < s
      → sum_by w xs ≤ s
      → sum_by (λ x. t * w x / s) xs ≤ t
  shares_le t s w xs p h =
      le_of_mul-le-mul_right (le_trans (sum_shares t s w xs) (mul-le-mul_left t h)) p

  pub sum_by_mono :
      (f g : A → ℕ) → ((x : A) → f x ≤ g x) → (xs : List A) → sum_by f xs ≤ sum_by g xs
  sum_by_mono f g h [] = omega arith
  sum_by_mono f g h (x ∷ xs) = omega (arith, h x, sum_by_mono f g h xs)
