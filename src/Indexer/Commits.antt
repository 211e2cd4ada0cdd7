-- ===== src/Indexer/Commits.antt =====
-- What indexing in batches does to the database, seen from outside: one block after the other is
-- committed whole, by all the protocols, or leaves no trace.
use iotex_analytics.Common.{
  ℕ, zero, suc, ◌-◌, ◌≡◌, refl, inl, inr, none, some, List, [], ◌∷◌, All, Go, ok, err, Error, Abort,
  abort, Option, ◌∙◌, Go-cases, Bool-cases, add64, leb, arith,
}
use iotex_analytics.Store.{World, Run, for_each, wrap_error}
use iotex_analytics.Store.Atomic.{transact_atomic, begun}
use iotex_analytics.Store.Steps.{>>=-ok, wrap_error-ok, >>=-then, wrap_error_world}
use iotex_analytics.Indexer.Progress.{
  after_blocks, round_done, round_more, round_error, round_abort,
}
use iotex_analytics.Indexer.{
  Protocol, Indexer, Chain, build_index, index_block, index_blocks, batch_count, batch_loop,
  index_in_batch,
}

module _ {D S B : Type 0} where
  -- All the protocols handle a block, one after the other.
  abbrev pub handled : List (Protocol D S B) → B → Run D S (Unit {0})
  handled ps blk =
      for_each
        (λ (p : Protocol D S B). wrap_error "failed to build index for block" (p.handle_block blk))
        ps

  -- One step of the database: every protocol has handled a block of the chain without an error.
  pub data Commit (chain : Chain B) (ps : List (Protocol D S B)) : D → D → Type 0 where
    commit :
        (raw : chain.Raw) (blk : B)
        → chain.convert raw ≡ ok blk
        → (w : World D S) → (handled ps blk w).0 ≡ ok tt
        → Commit chain ps w.db (handled ps blk w).1.db

  pub data Reach (chain : Chain B) (ps : List (Protocol D S B)) (d : D) : D → Type 0 where
    here : Reach chain ps d d
    next : {d' d'' : D} → Reach chain ps d d' → Commit chain ps d' d'' → Reach chain ps d d''

module _ {D S B : Type 0} (chain : Chain B) (ps : List (Protocol D S B)) where
  open chain use {Raw, get_raw_blocks, convert, height}

  begun_db : (w : World D S) → (begun w).db ≡ w.db
  begun_db w = ground arith

  Commit-from : {d d' d'' : D} → d ≡ d' → Commit chain ps d d'' → Reach chain ps d' d''
  Commit-from e c = rw (← e) (next here c)

  build_index-Reach :
      (raw : Raw) (blk : B)
      → convert raw ≡ ok blk
      → (w : World D S) → Reach chain ps w.db (build_index ps blk w).1.db
  unfolding build_index
  build_index-Reach raw blk c w = elim (transact_atomic (handled ps blk) w) [
    | inl e ↦ rw e here
    | inr (e, h, _) ↦ rw e (Commit-from (begun_db w) (commit raw blk c (begun w) h))
  ]

  Reach-trans : {d d' d'' : D} → Reach chain ps d d' → Reach chain ps d' d'' → Reach chain ps d d''
  Reach-trans r here = r
  Reach-trans r (next s c) = next (Reach-trans r s) c

  -- Where the indexer is: it has the protocols still, and its database is reached from `d`.
  abbrev Kept : D → Indexer D S B → Type 0
  Kept d idx = (idx.index_protocols ≡ ps) × Reach chain ps d idx.world.db

  batch_loop-zero :
      (limit tip start : ℕ) (idx : Indexer D S B) → batch_loop chain zero limit tip start idx ≡ none
  unfolding batch_loop
  batch_loop-zero limit tip start idx = refl

  index_block-protocols :
      (raw : Raw) (idx : Indexer D S B)
      → (index_block chain raw idx).1.index_protocols ≡ idx.index_protocols
  unfolding index_block
  index_block-protocols raw idx = ground arith

  index_block-built :
      (raw : Raw) (blk : B) (idx : Indexer D S B)
      → convert raw ≡ ok blk
      → (index_block chain raw idx).1.world.db
        ≡ (build_index idx.index_protocols blk idx.world).1.db
  unfolding index_block
  index_block-built raw blk idx c = ground (arith, c)

  index_block-error :
      (raw : Raw) (e : Error) (idx : Indexer D S B)
      → convert raw ≡ err e
      → (index_block chain raw idx).1.world.db ≡ idx.world.db
  unfolding index_block
  index_block-error raw e idx c = ground (arith, c)

  index_block-abort :
      (raw : Raw) (x : Abort) (idx : Indexer D S B)
      → convert raw ≡ abort x
      → (index_block chain raw idx).1.world.db ≡ idx.world.db
  unfolding index_block
  index_block-abort raw x idx c = ground (arith, c)

  index_block-Reach :
      (raw : Raw) (idx : Indexer D S B)
      → idx.index_protocols ≡ ps
      → Reach chain ps idx.world.db (index_block chain raw idx).1.world.db
  index_block-Reach raw idx e = elim (Go-cases (convert raw)) [
    | inl (blk, c) ↦ rw (index_block-built raw blk idx c, e) (build_index-Reach raw blk c idx.world)
    | inr (inl (x, c)) ↦ rw (index_block-error raw x idx c) here
    | inr (inr (x, c)) ↦ rw (index_block-abort raw x idx c) here
  ]

  index_block-Kept :
      (d : D) (raw : Raw) (idx : Indexer D S B) → Kept d idx → Kept d (index_block chain raw idx).1
  index_block-Kept d raw idx (e, r) =
      (index_block-protocols raw idx ∙ e, Reach-trans r (index_block-Reach raw idx e))

  -- The blocks of an answer after the first one.
  abbrev more_blocks : List Raw → Go (Unit {0}) × Indexer D S B → Go (Unit {0}) × Indexer D S B
  more_blocks raws (r, idx') = elim r [
    | ok _ ↦ index_blocks chain raws idx'
    | err e ↦ (err e, idx')
    | abort x ↦ (abort x, idx')
  ]

  more_blocks-Kept :
      (d : D) (raws : List Raw) (p : Go (Unit {0}) × Indexer D S B)
      → ((idx : Indexer D S B) → Kept d idx → Kept d (index_blocks chain raws idx).1)
      → Kept d p.1
      → Kept d (more_blocks raws p).1
  more_blocks-Kept d raws (ok _, idx') h k = h idx' k
  more_blocks-Kept d raws (err e, idx') h k = k
  more_blocks-Kept d raws (abort x, idx') h k = k

  index_blocks-Kept :
      (d : D) (raws : List Raw) (idx : Indexer D S B)
      → Kept d idx
      → Kept d (index_blocks chain raws idx).1
  unfolding index_blocks
  index_blocks-Kept d [] idx k = k
  index_blocks-Kept d (raw ∷ raws) idx k =
      more_blocks-Kept d raws (index_block chain raw idx) (index_blocks-Kept d raws)
        (index_block-Kept d raw idx k)

  -- What a number of rounds leaves behind, when they ended.
  abbrev Left : D → Option (Go (Unit {0}) × Indexer D S B) → Type 0
  Left d none = Unit
  Left d (some (_, idx')) = Kept d idx'

  after_blocks-Kept :
      (d : D) (fuel limit tip next_start : ℕ) (p : Go (Unit {0}) × Indexer D S B)
      → ((idx : Indexer D S B)
          → Kept d idx
          → Left d (batch_loop chain fuel limit tip next_start idx))
      → Kept d p.1
      → Left d (after_blocks chain fuel limit tip next_start p)
  after_blocks-Kept d fuel limit tip next_start (ok _, idx) h k = h idx k
  after_blocks-Kept d fuel limit tip next_start (err e, idx) h k = k
  after_blocks-Kept d fuel limit tip next_start (abort x, idx) h k = k

  batch_loop-Kept :
      (fuel limit tip start : ℕ) (d : D) (idx : Indexer D S B)
      → Kept d idx
      → Left d (batch_loop chain fuel limit tip start idx)
  batch_loop-Kept zero limit tip start d idx k = rw (batch_loop-zero limit tip start idx) tt
  batch_loop-Kept (suc fuel) limit tip start d idx k = elim (Bool-cases (leb start tip)) [
    | inr done ↦ rw (round_done chain fuel limit tip start idx done) k
    | inl more ↦ elim (Go-cases (get_raw_blocks start (batch_count limit tip start))) [
      | inl (raws, q) ↦ rw (round_more chain fuel limit tip start idx raws more q) (
          after_blocks-Kept d fuel limit tip (add64 start (batch_count limit tip start))
            (index_blocks chain raws idx)
            (λ idx' k'.
              batch_loop-Kept fuel limit tip (add64 start (batch_count limit tip start)) d idx' k')
            (index_blocks-Kept d raws idx k))
      | inr (inl (e, q)) ↦ rw (round_error chain fuel limit tip start idx e more q) k
      | inr (inr (x, q)) ↦ rw (round_abort chain fuel limit tip start idx x more q) k
    ]
  ]

-- However IndexInBatch ends (with the tip indexed, with an error of the client or of a protocol, or
-- with a panic), and whichever calls of the database fail, the database it leaves is reached from the
-- one it began with by commits of whole blocks of the chain, each of which every protocol of the
-- indexer handled without an error; and the indexer has the protocols it had.
pub index_in_batch-Reach :
    {D S B : Type 0} (chain : Chain B) (limit tip : ℕ) (idx : Indexer D S B) (r : Go (Unit {0}))
    (idx' : Indexer D S B)
    → index_in_batch chain limit tip idx ≡ some (r, idx')
    → (idx'.index_protocols ≡ idx.index_protocols)
      × Reach chain idx.index_protocols idx.world.db idx'.world.db
unfolding index_in_batch
index_in_batch-Reach chain limit tip idx r idx' q = rw q at (
    batch_loop-Kept chain idx.index_protocols (suc (suc tip - add64 idx.last_height 1)) limit tip
      (add64 idx.last_height 1) idx.world.db idx (refl, here))

module _ {D S B : Type 0} (P : D → Type 0) where
  -- A protocol that keeps a property of the database whenever it handles a block without an error.
  abbrev pub Preserves : Protocol D S B → Type 0
  Preserves p =
      (blk : B) (w : World D S)
      → P w.db
      → (p.handle_block blk w).0 ≡ ok tt
      → P (p.handle_block blk w).1.db

  handled-preserves :
      (ps : List (Protocol D S B)) (blk : B) (w : World D S)
      → All Preserves ps
      → P w.db
      → (handled ps blk w).0 ≡ ok tt
      → P (handled ps blk w).1.db
  unfolding for_each
  handled-preserves [] blk w h p e = p
  handled-preserves (q ∷ qs) blk w (h, hs) p e =
      let m = wrap_error "failed to build index for block" (q.handle_block blk) in
      let (a, e1, e2) = >>=-ok m (λ _. handled qs blk) w e in
      let done = wrap_error-ok "failed to build index for block" (q.handle_block blk) w e1 in
      let kept = h blk w p done in
      rw (>>=-then m (λ _. handled qs blk) w a e1) (
        handled-preserves qs blk (m w).1 hs
          (rw (wrap_error_world "failed to build index for block" (q.handle_block blk) w) kept) e2)

  Reach-preserves :
      (chain : Chain B) (ps : List (Protocol D S B)) {d d' : D}
      → All Preserves ps
      → P d
      → Reach chain ps d d'
      → P d'
  Reach-preserves chain ps h p here = p
  Reach-preserves chain ps h p (next r (commit raw blk c w e)) =
      handled-preserves ps blk w h (Reach-preserves chain ps h p r) e

-- A property of the database that every protocol keeps whenever it handles a block without an error is
-- kept by IndexInBatch, however it ends and whichever calls of the database fail.
pub index_in_batch-preserves :
    {D S B : Type 0} (P : D → Type 0) (chain : Chain B) (limit tip : ℕ) (idx : Indexer D S B)
    (r : Go (Unit {0})) (idx' : Indexer D S B)
    → All (Preserves P) idx.index_protocols
    → P idx.world.db
    → index_in_batch chain limit tip idx ≡ some (r, idx')
    → P idx'.world.db
index_in_batch-preserves P chain limit tip idx r idx' h p q =
    Reach-preserves P chain idx.index_protocols h p
      (index_in_batch-Reach chain limit tip idx r idx' q).1
