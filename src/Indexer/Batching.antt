-- ===== src/Indexer/Batching.antt =====
-- The batches together: with a client that serves every range, IndexInBatch indexes the heights
-- after the last one in order, whatever the query limit.
use mathlib.Core.Path.{ap₂}
use iotex_analytics.Common.{
  ℕ, zero, suc, ◌+◌, ◌-◌, ◌<◌, ◌≡◌, ◌∙◌, ap, sym, refl, inl, inr, some, List, [], ◌∷◌, ◌++◌, Go, ok,
  err, abort, Go-cases, Bool-cases, u64, add64, add64_small, leb, leb→le, arith,
}
use iotex_analytics.Indexer.{
  Indexer, Chain, index_block, index_blocks, batch_count, batch_loop, index_in_batch,
}
use iotex_analytics.Indexer.Progress.{batch_count_bounds, after_blocks, round_done, round_more}

-- `n` answers from height `s` on, for a chain that holds `at h` at height `h`.
abbrev pub raws_from : {A : Type 0} → (ℕ → A) → ℕ → ℕ → List A
raws_from at s zero = []
raws_from at s (suc n) = at s ∷ raws_from at (s + 1) n

raws_from-split :
    {A : Type 0} (at : ℕ → A) (s a s' b n : ℕ)
    → s' ≡ s + a
    → a + b ≡ n
    → raws_from at s a ++ raws_from at s' b ≡ raws_from at s n
raws_from-split at s zero s' b n p q =
    let e : s' ≡ s = omega arith in let f : b ≡ n = omega arith in ap₂ (raws_from at) e f
raws_from-split at s (suc a) s' b n p q =
    let f : suc (a + b) ≡ n = omega arith in
    ap (λ x. at s ∷ x) (raws_from-split at (s + 1) a s' b (a + b) (omega arith) refl)
    ∙ ap (raws_from at s) f

some_eq : {A : Type 0} {a b : A} → some a ≡ some b → a ≡ b
some_eq h = cc

module _ {D S B : Type 0} (chain : Chain B) where
  open chain use {Raw, get_raw_blocks, convert, height}

  abbrev pub go_on : List Raw → Go (Unit {0}) × Indexer D S B → Go (Unit {0}) × Indexer D S B
  go_on raws (r, idx) = elim r [
    | ok _ ↦ index_blocks chain raws idx
    | err e ↦ (err e, idx)
    | abort x ↦ (abort x, idx)
  ]

  nothing : (idx : Indexer D S B) → some (ok tt, idx) ≡ some (index_blocks chain [] idx)
  unfolding index_blocks
  nothing idx = refl

  index_blocks-nil :
      (idx idx' : Indexer D S B)
      → index_blocks chain [] idx ≡ (ok tt, idx')
      → idx.last_height ≡ idx'.last_height
  unfolding index_blocks
  index_blocks-nil idx idx' e = ground (arith, e)

  index_blocks-cons :
      (x : Raw) (xs : List Raw) (idx idx' : Indexer D S B)
      → index_blocks chain (x ∷ xs) idx ≡ (ok tt, idx')
      → (i : Indexer D S B) × (index_block chain x idx ≡ (ok tt, i))
        × (index_blocks chain xs i ≡ (ok tt, idx'))
  unfolding index_blocks
  index_blocks-cons x xs idx idx' e =
      let (r, i) = index_block chain x idx in (i, ground (arith, e), ground (arith, e))

  index_blocks-append :
      (xs ys : List Raw) (idx : Indexer D S B)
      → index_blocks chain (xs ++ ys) idx ≡ go_on ys (index_blocks chain xs idx)
  unfolding index_blocks
  index_blocks-append [] ys idx = refl
  index_blocks-append (x ∷ xs) ys idx =
      let (r, idx') = index_block chain x idx in step r idx' (index_blocks-append xs ys idx')
    where
      step :
          (r : Go (Unit {0})) (idx' : Indexer D S B)
          → index_blocks chain (xs ++ ys) idx' ≡ go_on ys (index_blocks chain xs idx')
          → elim r as (λ _. Go (Unit {0}) × Indexer D S B) [
            | ok _ ↦ index_blocks chain (xs ++ ys) idx'
            | err e ↦ (err e, idx')
            | abort x ↦ (abort x, idx')
          ]
            ≡ go_on ys (elim r as (λ _. Go (Unit {0}) × Indexer D S B) [
              | ok _ ↦ index_blocks chain xs idx'
              | err e ↦ (err e, idx')
              | abort x ↦ (abort x, idx')
            ])
      step (ok _) idx' h = h
      step (err e) idx' h = refl
      step (abort x) idx' h = refl

  after_blocks-some :
      (fuel limit tip next : ℕ) (ys : List Raw) (p : Go (Unit {0}) × Indexer D S B)
      → ((idx : Indexer D S B)
          → batch_loop chain fuel limit tip next idx ≡ some (index_blocks chain ys idx))
      → after_blocks chain fuel limit tip next p ≡ some (go_on ys p)
  after_blocks-some fuel limit tip next ys (ok _, idx) h = h idx
  after_blocks-some fuel limit tip next ys (err e, idx) h = refl
  after_blocks-some fuel limit tip next ys (panic, idx) h = refl

  module _ (at : ℕ → Raw) (serves : (s c : ℕ) → get_raw_blocks s c ≡ ok (raws_from at s c)) where
    batch_loop-eq :
        (fuel limit tip start : ℕ) (idx : Indexer D S B)
        → 0 < limit
        → tip + 1 < u64
        → tip + 1 - start < fuel
        → batch_loop chain fuel limit tip start idx
          ≡ some (index_blocks chain (raws_from at start (tip + 1 - start)) idx)
    batch_loop-eq zero limit tip start idx p b h = elim h [ ]
    batch_loop-eq (suc fuel) limit tip start idx p b h = elim (Bool-cases (leb start tip)) [
      | inr done ↦
          let none_left : tip + 1 - start ≡ 0 = ground arith in
          rw none_left (round_done chain fuel limit tip start idx done ∙ nothing idx)
      | inl more ↦
          let count = batch_count limit tip start in
          let (pos, fits) = batch_count_bounds limit tip start p (leb→le start tip more) b in
          let next = add64_small start count (omega arith) in
          let rest = tip + 1 - add64 start count in
          round_more chain fuel limit tip start idx (raws_from at start count) more
            (serves start count)
          ∙ after_blocks-some fuel limit tip (add64 start count)
              (raws_from at (add64 start count) rest)
              (index_blocks chain (raws_from at start count) idx)
              (λ idx'. batch_loop-eq fuel limit tip (add64 start count) idx' p b (omega arith))
          ∙ ap (λ x. some x)
              (sym (
                  index_blocks-append (raws_from at start count)
                    (raws_from at (add64 start count) rest) idx)
                ∙ ap (λ l. index_blocks chain l idx)
                    (raws_from-split at start count (add64 start count) rest (tip + 1 - start) next
                      (omega arith)))
    ]

    -- Where the client serves every request from one chain, the query limit is positive, the last
    -- height is below the tip and the tip below 2 ^ 64 - 1, IndexInBatch is one pass over the blocks
    -- after the last height up to the tip, in order and each once: the limit changes nothing.
    pub index_in_batch_lem :
        (limit tip : ℕ) (idx : Indexer D S B)
        → 0 < limit
        → tip + 1 < u64
        → idx.last_height < tip
        → index_in_batch chain limit tip idx
          ≡ some
              (index_blocks chain (raws_from at (idx.last_height + 1) (tip - idx.last_height)) idx)
    unfolding index_in_batch
    index_in_batch_lem limit tip idx p b lt =
        let first = add64_small idx.last_height 1 (omega arith) in
        let left : tip + 1 - (idx.last_height + 1) ≡ tip - idx.last_height = omega arith in
        rw first (
          batch_loop-eq (suc (suc tip - (idx.last_height + 1))) limit tip (idx.last_height + 1) idx
            p b (omega arith)
          ∙ ap (λ n. some (index_blocks chain (raws_from at (idx.last_height + 1) n) idx)) left)

    -- Its blocks stand at the heights that they are served for.
    module _ (heights : (h : ℕ) (b : B) → convert (at h) ≡ ok b → height b ≡ h) where
      index_block-last_height :
          (s : ℕ) (idx idx' : Indexer D S B)
          → index_block chain (at s) idx ≡ (ok tt, idx')
          → idx'.last_height ≡ s
      unfolding index_block
      index_block-last_height s idx idx' e = elim (Go-cases (convert (at s))) [
        | inl (b, q) ↦ ground (arith, q, e, heights s b q)
        | inr (inl (x, q)) ↦ ground (arith, q, e)
        | inr (inr (x, q)) ↦ ground (arith, q, e)
      ]

      index_blocks-last_height :
          (n s : ℕ) (idx idx' : Indexer D S B)
          → index_blocks chain (raws_from at s (suc n)) idx ≡ (ok tt, idx')
          → idx'.last_height ≡ s + n
      index_blocks-last_height zero s idx idx' e =
          let (i, first, rest) = index_blocks-cons (at s) [] idx idx' e in
          let last : i.last_height ≡ idx'.last_height = index_blocks-nil i idx' rest in
          omega (arith, index_block-last_height s idx i first)
      index_blocks-last_height (suc n) s idx idx' e =
          let (i, first, rest) =
            index_blocks-cons (at s) (raws_from at (s + 1) (suc n)) idx idx' e in
          omega (arith, index_blocks-last_height n (s + 1) i idx' rest)

      -- If IndexInBatch returns nil, for a tip above the last height and below 2 ^ 64 - 1, a positive
      -- query limit, and a client that serves every request from one chain whose blocks have the
      -- heights at which they are served, the last height has become the tip.
      pub index_in_batch-last_height :
          (limit tip : ℕ) (idx idx' : Indexer D S B)
          → 0 < limit
          → tip + 1 < u64
          → idx.last_height < tip
          → index_in_batch chain limit tip idx ≡ some (ok tt, idx')
          → idx'.last_height ≡ tip
      index_in_batch-last_height limit tip idx idx' p b lt e =
          let n = tip - idx.last_height - 1 in
          let count : tip - idx.last_height ≡ suc n = omega arith in
          let all = sym (index_in_batch_lem limit tip idx p b lt) ∙ e in
          let pass =
            ap (λ m. index_blocks chain (raws_from at (idx.last_height + 1) m) idx) (sym count)
            ∙ some_eq all in
          omega (arith, index_blocks-last_height n (idx.last_height + 1) idx idx' pass)
