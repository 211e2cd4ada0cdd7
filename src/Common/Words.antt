-- ===== src/Common/Words.antt =====
-- uint64 arithmetic, with its wrap-around; a division by zero panics, that of a big.Int too.
use Prim.Native.Nat.{ℕ, ◌+◌, ◌-◌, ◌*◌, ◌/◌, ◌%◌, ◌<◌, ◌≤◌, zero, suc}
use mathlib.Core.Path.{◌≡◌, refl}
use native.Mathlib.Omega.{arith}
use native.Mathlib.Nat.{mod-eq_of_lt}
use iotex_analytics.Common.Outcome.{Go, ok, panic}

abbrev pub u64 : ℕ
u64 = 18446744073709551616

unfoldable pub add64 : ℕ → ℕ → ℕ
add64 a b = (a + b) % u64

unfoldable pub sub64 : ℕ → ℕ → ℕ
sub64 a b = (a + u64 - b) % u64

unfoldable pub mul64 : ℕ → ℕ → ℕ
mul64 a b = a * b % u64

unfoldable pub div64 : ℕ → ℕ → Go ℕ
div64 a zero = panic
div64 a (suc b) = ok (a / suc b)

-- big.Int Div on numbers that are not negative.
unfoldable pub quo : ℕ → ℕ → Go ℕ
quo a zero = panic
quo a (suc b) = ok (a / suc b)

pub quo_pos : (a b : ℕ) → 0 < b → quo a b ≡ ok (a / b)
unfolding quo
quo_pos a zero h = elim h [ ]
quo_pos a (suc b) h = refl

pub quo-eq-ok : (a b r : ℕ) → quo a b ≡ ok r → r ≡ a / b
unfolding quo
quo-eq-ok a zero r h = cc
quo-eq-ok a (suc b) r h = ground (arith, h)

pub add64_small : (a b : ℕ) → a + b < u64 → add64 a b ≡ a + b
unfolding add64
add64_small a b h = omega arith

pub sub64_small : (a b : ℕ) → b ≤ a → a < u64 → sub64 a b ≡ a - b
unfolding sub64
sub64_small a b h k = omega arith

pub mul64_small : (a b : ℕ) → a * b < u64 → mul64 a b ≡ a * b
unfolding mul64
mul64_small a b h = mod-eq_of_lt h

pub div64_pos : (a b : ℕ) → 0 < b → div64 a b ≡ ok (a / b)
unfolding div64
div64_pos a zero h = elim h [ ]
div64_pos a (suc b) h = refl
