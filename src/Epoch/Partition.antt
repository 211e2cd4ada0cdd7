-- ===== src/Epoch/Partition.antt =====
-- Epochs partition the heights: the epoch of a height starts at or below it, and the next epoch
-- starts above it.
use iotex_analytics.Common.{
  ℕ, zero, suc, ap, ◌∙◌, ◌+◌, ◌-◌, ◌*◌, ◌/◌, ◌≤◌, ◌<◌, ◌≡◌, refl, inl, inr, ◌⊎◌, true, false, ok,
  arith, u64, add64_small, sub64_small, div64_pos, Bool-cases, le→leb,
}
use native.Mathlib.Decide.{dec_le}
use iotex_analytics.Epoch.{
  EpochCtx, early_epoch_number, early_epoch_height, late_epoch_number, get_epoch_number,
  get_epoch_height,
}
use iotex_analytics.Epoch.Plain.{
  IsValid, early_span, late_span, late_span_pos, div_span, div_span_le, early_epoch_height_plain,
}
use iotex_analytics.Epoch.Starts.{
  EarlyEpoch, positive_epoch, early_epoch, Contains, early_zero, late_height, EarlyEpoch-le,
  height_off, height_early, next_start,
}

-- A height that the first returns of GetEpochNumber serve.
Contains-early :
    (e : EpochCtx) (h : ℕ) (v : IsValid e) {d : ℕ}
    → EarlyEpoch e e.dardanelles_height d
    → (e.dardanelles_on ≡ false) ⊎ (h / e.num_delegates / e.num_sub_epochs + 1 ≤ d)
    → get_epoch_number e (suc h) ≡ early_epoch_number e (suc h)
    → suc h + early_span e + late_span e + 1 < u64
    → Contains e (suc h)
Contains-early e h v {d} last which same b =
    let q = h / e.num_delegates / e.num_sub_epochs in
    let (s, here) = positive_epoch e h v (omega arith) in
    let le = here.start_le in
    let before = here.before_end in
    let small = div_span_le h e.num_delegates e.num_sub_epochs in
    let (t, next_eq, after) = next_start e v last q which (omega (arith, s)) (omega arith) in
    record {
      number = q + 1;
      start = early_epoch_height e (q + 1);
      next = t;
      number_eq = same ∙ here.number;
      start_eq = elim which [
        | inl off ↦ height_off e v last (q + 1) off
        | inr le ↦ height_early e v last (q + 1) le
      ];
      next_eq = next_eq;
      start_le = le;
      before_next = omega (arith, s);
    }

late_number :
    (e : EpochCtx) (h : ℕ) (v : IsValid e) {d : ℕ}
    → e.dardanelles_on ≡ true
    → (last : EarlyEpoch e e.dardanelles_height d) → e.dardanelles_height < h
    → h < u64
    → let q = (h - early_epoch_height e d) / e.num_delegates / e.num_sub_epochs_dardanelles in
      d + q < u64 → get_epoch_number e h ≡ ok (d + q)
unfolding get_epoch_number late_epoch_number
late_number e h v {d} on last above b c =
    let s = early_epoch_height e d in
    rw (on, last.number)
      (ground (
        arith,
        last.start_le,
        sub64_small h s,
        div64_pos (h - s) e.num_delegates v.has_delegates,
        div64_pos ((h - s) / e.num_delegates) e.num_sub_epochs_dardanelles
            (v.has_late_sub_epochs on),
        add64_small d ((h - s) / e.num_delegates / e.num_sub_epochs_dardanelles) c,
      ))

zero_number : (e : EpochCtx) → get_epoch_number e 0 ≡ ok 0
unfolding get_epoch_number
zero_number e = refl

zero_height : (e : EpochCtx) → get_epoch_height e 0 ≡ ok 0
unfolding get_epoch_height
zero_height e = refl

-- Epoch 1 starts above height 0.
first :
    (e : EpochCtx) (v : IsValid e) {d : ℕ}
    → EarlyEpoch e e.dardanelles_height d
    → early_span e + late_span e + 1 < u64
    → (t : ℕ) × (get_epoch_height e (0 + 1) ≡ ok t) × (0 < t)
first e v {d = zero} last b = elim (Bool-cases e.dardanelles_on) [
  | inl on ↦ (
    early_epoch_height e 0 + 1 * late_span e,
    late_height e v on last 1 (omega (arith, early_zero e)) (omega arith),
    omega (arith, late_span_pos e v on),
  )
  | inr off ↦ (
    0 * early_span e + 1,
    height_off e v last (0 + 1) off
        ∙ ap (λ x. ok x) (early_epoch_height_plain e 0 v (omega arith) (omega arith)),
    omega arith,
  )
]
first e v {d = suc d} last b = (
  0 * early_span e + 1,
  height_early e v last (0 + 1) (omega arith)
      ∙ ap (λ x. ok x) (early_epoch_height_plain e 0 v (omega arith) (omega arith)),
  omega arith,
)

-- A height above the Dardanelles height, or 0 as that height.
Contains-late :
    (e : EpochCtx) (h : ℕ) (v : IsValid e) {d : ℕ}
    → e.dardanelles_on ≡ true
    → (last : EarlyEpoch e e.dardanelles_height d) → e.dardanelles_height < h
    → h + early_span e + late_span e + 1 < u64
    → Contains e h
Contains-late e h v {d} on last above b =
    let s = early_epoch_height e d in
    let q = (h - s) / e.num_delegates / e.num_sub_epochs_dardanelles in
    let (below, beyond) =
      div_span (h - s) e.num_delegates e.num_sub_epochs_dardanelles (late_span_pos e v on) in
    let small = div_span_le (h - s) e.num_delegates e.num_sub_epochs_dardanelles in
    let le = last.start_le in
    let dle = last.number_le in
    record {
      number = d + q;
      start = s + q * late_span e;
      next = s + (q + 1) * late_span e;
      number_eq = late_number e h v on last above (omega arith) (omega arith);
      start_eq = late_height e v on last q (omega arith) (omega arith);
      next_eq =
          ap (get_epoch_height e) (omega arith)
          ∙ late_height e v on last (q + 1) (omega arith) (omega arith);
      start_le = omega arith;
      before_next = omega arith;
    }

Contains-zero :
    (e : EpochCtx) (v : IsValid e) {d : ℕ}
    → EarlyEpoch e e.dardanelles_height d
    → early_span e + late_span e + 1 < u64
    → Contains e 0
Contains-zero e v {d} last b =
    let (t, next_eq, pos) = first e v last b in
    record {
      number = 0;
      start = 0;
      next = t;
      number_eq = zero_number e;
      start_eq = zero_height e;
      next_eq = next_eq;
      start_le = omega arith;
      before_next = pos;
    }

number_off :
    (e : EpochCtx) (h : ℕ)
    → e.dardanelles_on ≡ false
    → get_epoch_number e (suc h) ≡ early_epoch_number e (suc h)
unfolding get_epoch_number
number_off e h off = ground arith

number_early :
    (e : EpochCtx) (h : ℕ)
    → suc h ≤ e.dardanelles_height
    → get_epoch_number e (suc h) ≡ early_epoch_number e (suc h)
unfolding get_epoch_number
number_early e h le = ground (arith, le→leb (suc h) e.dardanelles_height le)

-- For settings with delegates and sub-epochs, whose epochs from Dardanelles on are not shorter than those
-- before, and a height that two epochs more keep below the wrap-around: neither function panics,
-- GetEpochHeight of the epoch that GetEpochNumber gives the height is at most the height, and that of
-- the next epoch is above it.
pub get_epoch_number-Contains :
    (e : EpochCtx) (h : ℕ)
    → IsValid e
    → e.dardanelles_height < u64
    → h + early_span e + late_span e + 1 < u64
    → Contains e h
get_epoch_number-Contains e zero v bd b =
    let (d, last) = early_epoch e e.dardanelles_height v bd in Contains-zero e v last (omega arith)
get_epoch_number-Contains e (suc h) v bd b =
    let (d, last) = early_epoch e e.dardanelles_height v bd in
    elim (Bool-cases e.dardanelles_on) [
      | inl on ↦ elim (dec_le (suc h) e.dardanelles_height) [
        | yes p ↦
            Contains-early e h v last (inr (EarlyEpoch-le e v last h bd p)) (number_early e h p) b
        | no p ↦ Contains-late e (suc h) v on last (omega arith) b
      ]
      | inr off ↦ Contains-early e h v last (inl off) (number_off e h off) b
    ]
