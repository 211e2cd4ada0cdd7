-- ===== src/Epoch/Plain.antt =====
-- The epoch functions of valid settings below the wrap-around: closed forms, and no panic.
use iotex_analytics.Common.{
  ℕ, ◌+◌, ◌-◌, ◌*◌, ◌/◌, ◌≤◌, ◌<◌, ◌≡◌, true, ok, arith, u64, mul64, add64_small, sub64_small,
  mul64_small, div64_pos,
}
use native.Mathlib.Nat.{
  div-div-eq-div-mul, div-mul-le_self, lt-div-mul-add, mul-pos, div-le_self, le-mul_of_pos_right,
  mul-div_cancel,
}
use iotex_analytics.Epoch.{EpochCtx, early_epoch_number, early_epoch_height}

-- Settings that divide by no zero, and whose Dardanelles epochs are no shorter than the first ones.
pub record IsValid (e : EpochCtx) : Type 0 where
  pub has_delegates : 0 < e.num_delegates
  pub has_sub_epochs : 0 < e.num_sub_epochs
  pub has_late_sub_epochs : e.dardanelles_on ≡ true → 0 < e.num_sub_epochs_dardanelles
  pub not_shorter : e.dardanelles_on ≡ true → e.num_sub_epochs ≤ e.num_sub_epochs_dardanelles

-- Blocks in one epoch, before and after Dardanelles.
abbrev pub early_span : EpochCtx → ℕ
early_span e = e.num_delegates * e.num_sub_epochs

abbrev pub late_span : EpochCtx → ℕ
late_span e = e.num_delegates * e.num_sub_epochs_dardanelles

pub early_span_pos : (e : EpochCtx) → IsValid e → 0 < early_span e
early_span_pos e v = mul-pos v.has_delegates v.has_sub_epochs

pub late_span_pos : (e : EpochCtx) → IsValid e → e.dardanelles_on ≡ true → 0 < late_span e
late_span_pos e v on = mul-pos v.has_delegates (v.has_late_sub_epochs on)

pub span_le : (e : EpochCtx) → IsValid e → e.dardanelles_on ≡ true → early_span e ≤ late_span e
span_le e v on = grind (arith, v.not_shorter on)

-- A number of rounds lies in one span.
pub div_span :
    (x n k : ℕ) → 0 < n * k → (x / n / k * (n * k) ≤ x) × (x < x / n / k * (n * k) + n * k)
div_span x n k h = rw (div-div-eq-div-mul x n k) (div-mul-le_self x (n * k), lt-div-mul-add h)

pub div_span_le : (x n k : ℕ) → x / n / k ≤ x
div_span_le x n k = rw (div-div-eq-div-mul x n k) (div-le_self x (n * k))

-- The start of the q-th span lies in it.
pub div_span_start : (q n k : ℕ) → 0 < n * k → q * (n * k) / n / k ≡ q
div_span_start q n k h = rw (div-div-eq-div-mul (q * (n * k)) n k) (mul-div_cancel q h)

abbrev pub early_number_plain : EpochCtx → ℕ → ℕ
early_number_plain e h = (h - 1) / e.num_delegates / e.num_sub_epochs + 1

pub early_epoch_number_plain :
    (e : EpochCtx) (h : ℕ)
    → IsValid e
    → 0 < h
    → h < u64
    → early_epoch_number e h ≡ ok (early_number_plain e h)
unfolding early_epoch_number
early_epoch_number_plain e h v p b = ground (
  arith,
  sub64_small h 1 p b,
  div64_pos (h - 1) e.num_delegates v.has_delegates,
  div64_pos ((h - 1) / e.num_delegates) e.num_sub_epochs v.has_sub_epochs,
  div_span_le (h - 1) e.num_delegates e.num_sub_epochs,
  add64_small ((h - 1) / e.num_delegates / e.num_sub_epochs) 1,
)

-- A product of three below the wrap-around.
pub mul64-mul64 : (q n k : ℕ) → 0 < k → q * (n * k) < u64 → mul64 (mul64 q n) k ≡ q * (n * k)
mul64-mul64 q n k h b =
    rw (mul64_small q n (omega (arith, le-mul_of_pos_right (q * n) h)))
      (rw (mul64_small (q * n) k (omega arith)) (omega arith))

pub early_epoch_height_plain :
    (e : EpochCtx) (q : ℕ)
    → IsValid e
    → q * early_span e + 1 < u64
    → q + 1 < u64
    → early_epoch_height e (q + 1) ≡ q * early_span e + 1
unfolding early_epoch_height
early_epoch_height_plain e q v b c = ground (
  arith,
  sub64_small (q + 1) 1,
  mul64-mul64 q e.num_delegates e.num_sub_epochs v.has_sub_epochs,
  add64_small (q * early_span e) 1,
)
