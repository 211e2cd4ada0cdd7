-- ===== src/Indexer/Progress.antt =====
-- Indexing in batches: the loop ends, visits every height in order, and moves the last height on.
use iotex_analytics.Common.{
  ℕ, zero, suc, ◌+◌, ◌-◌, ◌≤◌, ◌<◌, ◌≡◌, refl, inl, inr, true, false, Option, some, List, Error, Go,
  ok, err, Abort, abort, wrap, Go-cases, Bool-cases, u64, add64, add64_small, sub64_small, leb,
  leb→le, arith,
}
use iotex_analytics.Indexer.{Indexer, Chain, index_blocks, batch_count, batch_loop, index_in_batch}

-- The count of a round is positive and stays within the heights that are left.
pub batch_count_bounds :
    (limit tip start : ℕ)
    → 0 < limit
    → start ≤ tip
    → tip + 1 < u64
    → (0 < batch_count limit tip start) × (start + batch_count limit tip start ≤ tip + 1)
unfolding batch_count
batch_count_bounds limit tip start p le b =
    ground (arith, sub64_small tip start le, add64_small (tip - start) 1)

abbrev Ends : {A : Type 0} → Option A → Type 0
Ends {A} o = (a : A) × (o ≡ some a)

module _ {D S B : Type 0} (chain : Chain B) where
  open chain use {Raw, get_raw_blocks, convert, height}

  -- The loop after a request that was answered.
  abbrev pub after_blocks :
      ℕ → ℕ → ℕ → ℕ → Go (Unit {0}) × Indexer D S B → Option (Go (Unit {0}) × Indexer D S B)
  after_blocks fuel limit tip next (r, idx') = elim r [
    | ok _ ↦ batch_loop chain fuel limit tip next idx'
    | err e ↦ some (err e, idx')
    | abort x ↦ some (abort x, idx')
  ]

  after_blocks-Ends :
      (fuel limit tip next : ℕ) (p : Go (Unit {0}) × Indexer D S B)
      → ((idx : Indexer D S B) → Ends (batch_loop chain fuel limit tip next idx))
      → Ends (after_blocks fuel limit tip next p)
  after_blocks-Ends fuel limit tip next (ok _, idx') h = h idx'
  after_blocks-Ends fuel limit tip next (err e, idx') h = ((err e, idx'), refl)
  after_blocks-Ends fuel limit tip next (abort x, idx') h = ((abort x, idx'), refl)

  -- One round of the loop, by its test and by the answer of the client.
  module _ (fuel limit tip start : ℕ) (idx : Indexer D S B) where
    abbrev pub round : Option (Go (Unit {0}) × Indexer D S B)
    round = batch_loop chain (suc fuel) limit tip start idx

    pub round_done : leb start tip ≡ false → round ≡ some (ok tt, idx)
    unfolding batch_loop
    round_done h = rw (h, batch_loop)

    pub round_more :
        (raws : List Raw)
        → leb start tip ≡ true
        → get_raw_blocks start (batch_count limit tip start) ≡ ok raws
        → round
          ≡ after_blocks fuel limit tip
              (add64 start (batch_count limit tip start))
              (index_blocks chain raws idx)
    unfolding batch_loop
    round_more raws h q = rw (h, q, batch_loop)

    pub round_error :
        (e : Error)
        → leb start tip ≡ true
        → get_raw_blocks start (batch_count limit tip start) ≡ err e
        → round ≡ some (err (wrap "failed to get raw blocks from the chain" e), idx)
    unfolding batch_loop
    round_error e h q = rw (h, q, batch_loop)

    pub round_abort :
        (x : Abort)
        → leb start tip ≡ true
        → get_raw_blocks start (batch_count limit tip start) ≡ abort x
        → round ≡ some (abort x, idx)
    unfolding batch_loop
    round_abort x h q = rw (h, q, batch_loop)

  batch_loop-Ends :
      (fuel limit tip start : ℕ) (idx : Indexer D S B)
      → 0 < limit
      → tip + 1 < u64
      → tip + 1 - start < fuel
      → Ends (batch_loop chain fuel limit tip start idx)
  batch_loop-Ends zero limit tip start idx p b h = elim h [ ]
  batch_loop-Ends (suc fuel) limit tip start idx p b h = elim (Bool-cases (leb start tip)) [
    | inr done ↦ (_, round_done fuel limit tip start idx done)
    | inl more ↦ elim (Go-cases (get_raw_blocks start (batch_count limit tip start))) [
      | inl (raws, q) ↦
          let count = batch_count limit tip start in
          let (pos, fits) = batch_count_bounds limit tip start p (leb→le start tip more) b in
          let next = add64_small start count (omega arith) in
          rw (round_more fuel limit tip start idx raws more q) (
            after_blocks-Ends fuel limit tip (add64 start count) (index_blocks chain raws idx)
              (λ idx'. batch_loop-Ends fuel limit tip (add64 start count) idx' p b (omega arith)))
      | inr (inl (e, q)) ↦ (_, round_error fuel limit tip start idx e more q)
      | inr (inr (x, q)) ↦ (_, round_abort fuel limit tip start idx x more q)
    ]
  ]

  -- With a positive query limit and a tip below 2 ^ 64 - 1 IndexInBatch ends, whatever the client and
  -- the protocols do.
  pub index_in_batch-ends :
      (limit tip : ℕ) (idx : Indexer D S B)
      → 0 < limit
      → tip + 1 < u64
      → (r : Go (Unit {0}) × Indexer D S B) × (index_in_batch chain limit tip idx ≡ some r)
  unfolding index_in_batch
  index_in_batch-ends limit tip idx p b =
      batch_loop-Ends (suc (suc tip - add64 idx.last_height 1)) limit tip (add64 idx.last_height 1)
        idx p b (omega arith)
