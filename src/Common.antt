-- ===== src/Common.antt =====
-- The names that the other modules share: the libraries', passed on, and those of the children.
-- Tests and Lists are over the native numbers; Outcome holds the outcomes of a Go call; Words the
-- arithmetic of uint64; Maps the maps; Integers the signed integers; Texts the bytes of a text.
mod Tests
mod Lists
mod Outcome
mod Words
mod Maps
mod Integers
mod Texts
pub use Tests.*
pub use Lists.*
pub use Outcome.{
  Error, not_exist, already_exist, unimplemented, message, wrap, foreign, Go, ok, err, Abort,
  panicked, exited, abort, panic, exit, bind_go, wrapped, Go-cases, bind_go-eq-ok, fold_go_inv,
  fold_go-runs, wrapped-eq-ok,
}
unfoldable pub use Outcome.{fold_go}
pub use Words.{u64, add64_small, sub64_small, mul64_small, div64_pos, quo_pos, quo-eq-ok}
unfoldable pub use Words.{add64, sub64, mul64, div64, quo}
pub use Maps.*
pub use Texts.{of_bytes, bytes}
pub use Integers.{ℤ, pos, negsuc, pos_part, neg_part, sub_ℕ, +ℤ_parts, -ℤ_parts}
unfoldable pub use Integers.{◌+ℤ◌, ◌-ℤ◌}
pub use Prim.Native.Nat.{ℕ, zero, suc, ◌+◌, ◌-◌, ◌*◌, ◌/◌, ◌%◌, ◌^◌, ◌≤◌, ◌<◌}
pub use Prim.Native.String.{String}
pub use mathlib.Core.Path.{◌≡◌, refl, sym, ap, ◌∙◌}
pub use mathlib.Core.Logic.{◌≢◌, ◌↔◌, ◌⊎◌, inl, inr}
pub use mathlib.Core.Bool.{Bool, true, false, not, ◌&&◌, ◌||◌}
pub use mathlib.Core.Option.{Option, none, some}
pub use mathlib.Core.List.{List, [], ◌∷◌, ◌++◌, map}
pub use text.Mathlib.TextEquality.{eq_iff}
pub use text.Mathlib.TextPositions.{eq_refl}
pub use native.Mathlib.Omega.{arith}
unfoldable pub use text.Mathlib.Text.{◌==◌ as str_eq}
