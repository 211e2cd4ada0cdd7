-- ===== src/Epoch/Recursion.antt =====
-- GetEpochNumber and GetEpochHeight call themselves and each other at the Dardanelles height. The
-- model writes those calls out; here it satisfies the recursive equations of the source.
use iotex_analytics.Common.{
  ℕ, ◌≡◌, inl, inr, ◌||◌, not, Go, ok, bind_go, Go-cases, arith, add64, sub64, div64, leb, ◌==◌,
  le→leb, if◌then◌else◌,
}
use iotex_analytics.Epoch.{
  EpochCtx, early_epoch_number, early_epoch_height, late_epoch_number, get_epoch_number,
  get_epoch_height,
}

at_dardanelles :
    (e : EpochCtx)
    → get_epoch_number e e.dardanelles_height ≡ early_epoch_number e e.dardanelles_height
unfolding get_epoch_number
at_dardanelles e = ground (arith, le→leb e.dardanelles_height e.dardanelles_height)

height_at_dardanelles :
    (e : EpochCtx) (d : ℕ)
    → early_epoch_number e e.dardanelles_height ≡ ok d
    → get_epoch_height e d ≡ ok (early_epoch_height e d)
unfolding get_epoch_height
height_at_dardanelles e d h = ground (arith, h, le→leb d d)

-- The last return of GetEpochNumber, with its two calls.
abbrev counted_from_dardanelles : EpochCtx → ℕ → Go ℕ
counted_from_dardanelles e height = bind_go (get_epoch_number e e.dardanelles_height) (λ d.
    bind_go (get_epoch_height e d) (λ start.
      bind_go (div64 (sub64 height start) e.num_delegates)
        (λ rounds. bind_go (div64 rounds e.num_sub_epochs_dardanelles) (λ n. ok (add64 d n)))))

late_epoch_number_lem :
    (e : EpochCtx) (height : ℕ) → late_epoch_number e height ≡ counted_from_dardanelles e height
unfolding late_epoch_number
late_epoch_number_lem e height =
    rw at_dardanelles (elim (Go-cases (early_epoch_number e e.dardanelles_height)) [
      | inl (d, p) ↦ rw p (rw (height_at_dardanelles e d p))
      | inr (inl (x, p)) ↦ rw p
      | inr (inr (x, p)) ↦ rw p
    ])

-- GetEpochNumber as it is written: the later heights are counted from the start, by
-- GetEpochHeight, of the epoch that GetEpochNumber gives the Dardanelles height; a panic of either
-- call is a panic of the whole.
get_epoch_number-recursive :
    (e : EpochCtx) (height : ℕ)
    → get_epoch_number e height ≡ (
        if height == 0
        then ok 0
        else if not e.dardanelles_on || leb height e.dardanelles_height
        then bind_go
            (div64 (sub64 height 1) e.num_delegates)
            (λ rounds. bind_go (div64 rounds e.num_sub_epochs) (λ n. ok (add64 n 1)))
        else counted_from_dardanelles e height)
unfolding get_epoch_number
get_epoch_number-recursive e height = rw (← late_epoch_number_lem e height) (ground arith)
