-- ===== src/Epoch/Starts.antt =====
-- Where epochs start: the closed forms before and after the Dardanelles height, and their bounds.
use iotex_analytics.Common.{
  ℕ, zero, suc, ap, ◌∙◌, ◌+◌, ◌-◌, ◌*◌, ◌/◌, ◌≤◌, ◌<◌, ◌≡◌, refl, inl, inr, ◌⊎◌, true, false, ok,
  arith, u64, add64, sub64, mul64, add64_small, sub64_small, Bool-cases, le→leb,
}
use native.Mathlib.Decide.{dec_le}
use native.Mathlib.Nat.{div-div-eq-div-mul, div-mul-le_self, le-div_iff_mul-le}
use iotex_analytics.Epoch.{
  EpochCtx, early_epoch_number, early_epoch_height, get_epoch_number, get_epoch_height,
}
use iotex_analytics.Epoch.Plain.{
  IsValid, early_span, late_span, early_span_pos, span_le, div_span, div_span_le,
  early_epoch_number_plain, mul64-mul64, early_epoch_height_plain,
}

-- `s` is where the epoch of height `h` starts.
pub record EarlyEpoch (e : EpochCtx) (h n : ℕ) : Type 0 where
  pub number : early_epoch_number e h ≡ ok n
  pub start_le : early_epoch_height e n ≤ h
  pub before_end : h < early_epoch_height e n + early_span e
  pub number_le : n ≤ early_epoch_height e n

-- Facts of a height in one of the first epochs, with the closed form of the start.
pub positive_epoch :
    (e : EpochCtx) (h : ℕ)
    → IsValid e
    → suc h < u64
    → let q = h / e.num_delegates / e.num_sub_epochs in
      (early_epoch_height e (q + 1) ≡ q * early_span e + 1) × EarlyEpoch e (suc h) (q + 1)
positive_epoch e h v b =
    let q = h / e.num_delegates / e.num_sub_epochs in
    let span = div_span h e.num_delegates e.num_sub_epochs (early_span_pos e v) in
    let small = div_span_le h e.num_delegates e.num_sub_epochs in
    let s = early_epoch_height_plain e q v (omega arith) (omega arith) in
    (
      s,
      record {
        number =
            early_epoch_number_plain e (suc h) v (omega arith) b
            ∙ ap (λ x. ok (x / e.num_delegates / e.num_sub_epochs + 1)) (omega arith);
        start_le = rw s (omega arith);
        before_end = rw s (omega arith);
        number_le = rw s (grind (arith, early_span_pos e v));
      },
    )

pub early_epoch : (e : EpochCtx) (h : ℕ) → IsValid e → h < u64 → (n : ℕ) × EarlyEpoch e h n
unfolding early_epoch_number early_epoch_height
early_epoch e zero v b = (
  0,
  record {
    number = refl;
    start_le = omega arith;
    before_end = omega (arith, early_span_pos e v);
    number_le = omega arith;
  },
)
early_epoch e (suc h) v b = (h / e.num_delegates / e.num_sub_epochs + 1, (positive_epoch e h v b).1)

-- What the epochs promise of one height.
pub record Contains (e : EpochCtx) (h : ℕ) : Type 0 where
  pub number : ℕ
  pub start : ℕ
  pub next : ℕ
  pub number_eq : get_epoch_number e h ≡ ok number
  pub start_eq : get_epoch_height e number ≡ ok start
  pub next_eq : get_epoch_height e (number + 1) ≡ ok next
  pub start_le : start ≤ h
  pub before_next : h < next

pub early_zero : (e : EpochCtx) → early_epoch_height e 0 ≡ 0
unfolding early_epoch_height
early_zero e = refl

-- From the epoch `d` of the Dardanelles height on, epochs start `late_span` apart.
module _ (e : EpochCtx) (v : IsValid e) (on : e.dardanelles_on ≡ true) {d : ℕ}
    (last : EarlyEpoch e e.dardanelles_height d) where
  pub height_at : get_epoch_height e d ≡ ok (early_epoch_height e d)
  unfolding get_epoch_height
  height_at = ground (arith, on, last.number, le→leb d d, early_zero e)

  pub height_after :
      (n : ℕ)
      → d < n
      → get_epoch_height e n
        ≡ ok (
            add64
              (early_epoch_height e d)
              (mul64 (mul64 (sub64 n d) e.num_delegates) e.num_sub_epochs_dardanelles))
  unfolding get_epoch_height
  height_after n h = rw (on, last.number) (ground arith)

  pub late_height :
      (k : ℕ)
      → early_epoch_height e d + k * late_span e < u64
      → d + k < u64
      → get_epoch_height e (d + k) ≡ ok (early_epoch_height e d + k * late_span e)
  late_height zero b c =
      ap (get_epoch_height e) (omega arith) ∙ height_at ∙ ap (λ x. ok x) (omega arith)
  late_height (suc k) b c =
      height_after (d + suc k) (omega arith)
      ∙ ap (λ x. ok x)
          (ground (
            arith,
            sub64_small (d + suc k) d,
            mul64-mul64 (suc k) e.num_delegates e.num_sub_epochs_dardanelles
                (v.has_late_sub_epochs on),
            add64_small (early_epoch_height e d) (suc k * late_span e),
          ))

pub div_span_mono : (x y n k : ℕ) → 0 < n * k → x ≤ y → x / n / k ≤ y / n / k
div_span_mono x y n k h le = rw (div-div-eq-div-mul x n k) (
    rw (div-div-eq-div-mul y n k)
      ((le-div_iff_mul-le h).1 (omega (arith, div-mul-le_self x (n * k)))))

-- A positive height up to the Dardanelles height lies in an epoch up to that of the latter.
pub EarlyEpoch-le :
    (e : EpochCtx) (v : IsValid e) {d : ℕ} (last : EarlyEpoch e e.dardanelles_height d) (h : ℕ)
    → e.dardanelles_height < u64
    → suc h ≤ e.dardanelles_height
    → h / e.num_delegates / e.num_sub_epochs + 1 ≤ d
EarlyEpoch-le e v last h b le = ground (
  arith,
  last.number,
  early_epoch_number_plain e e.dardanelles_height v (omega arith) b,
  div_span_mono h (e.dardanelles_height - 1) e.num_delegates e.num_sub_epochs (early_span_pos e v)
      (omega arith),
)

module _ (e : EpochCtx) (v : IsValid e) {d : ℕ} (last : EarlyEpoch e e.dardanelles_height d) where
  pub height_off :
      (n : ℕ) → e.dardanelles_on ≡ false → get_epoch_height e n ≡ ok (early_epoch_height e n)
  unfolding get_epoch_height
  height_off n off = ground (arith, off, last.number, early_zero e)

  pub height_early : (n : ℕ) → n ≤ d → get_epoch_height e n ≡ ok (early_epoch_height e n)
  unfolding get_epoch_height
  height_early n h = ground (arith, last.number, le→leb n d h, early_zero e)

  -- Where the epoch after `q + 1` starts, for a `q + 1` among the first epochs.
  abbrev pub NextStart : ℕ → Type 0
  NextStart q =
      (t : ℕ) × (get_epoch_height e (q + 1 + 1) ≡ ok t) × (q * early_span e + 1 + early_span e ≤ t)

  pub next_early :
      (q : ℕ)
      → q * early_span e + 1 + early_span e < u64
      → q + 2 < u64
      → get_epoch_height e (q + 1 + 1) ≡ ok (early_epoch_height e (q + 1 + 1))
      → NextStart q
  next_early q b c h = (
    (q + 1) * early_span e + 1,
    h ∙ ap (λ x. ok x) (early_epoch_height_plain e (q + 1) v (omega arith) (omega arith)),
    omega arith,
  )

  pub next_late :
      (q : ℕ)
      → e.dardanelles_on ≡ true
      → q + 1 ≡ d
      → q * early_span e + 1 + late_span e < u64
      → q + 2 < u64
      → NextStart q
  next_late q on p b c =
      let s = early_epoch_height_plain e q v (grind (arith, span_le e v on)) (omega arith) in
      let s' = ap (early_epoch_height e) p in
      (
        early_epoch_height e d + 1 * late_span e,
        ap (λ x. get_epoch_height e (x + 1)) p
            ∙ late_height e v on last 1 (omega (arith, s', s)) (omega arith),
        omega (arith, s', s, span_le e v on),
      )

  pub next_start :
      (q : ℕ)
      → (e.dardanelles_on ≡ false) ⊎ (q + 1 ≤ d)
      → q * early_span e + 1 + early_span e + late_span e < u64
      → q + 2 < u64
      → NextStart q
  next_start q (inl off) b c = next_early q (omega arith) c (height_off (q + 1 + 1) off)
  next_start q (inr le) b c = elim (Bool-cases e.dardanelles_on) [
    | inl on ↦ elim (dec_le (q + 2) d) [
      | yes p ↦ next_early q (omega arith) c (height_early (q + 1 + 1) (omega arith))
      | no p ↦ next_late q on (omega arith) (omega arith) c
    ]
    | inr off ↦ next_early q (omega arith) c (height_off (q + 1 + 1) off)
  ]
