-- ===== src/Indexer/Lost.antt =====
-- IndexInBatch over a protocol that panics: Transact of sql/storebase.go recovers the panic.
use iotex_analytics.Common.{
  ℕ, zero, suc, ◌+◌, ◌-◌, ◌<◌, ◌≡◌, ◌∙◌, ap, refl, some, List, [], ◌∷◌, ok, panic, u64, arith,
}
use iotex_analytics.Store.{World, ◌>>=◌, transact, finish, for_each, wrap_error}
use iotex_analytics.Indexer.{
  Protocol, Indexer, Chain, build_index, index_block, index_blocks, index_in_batch,
}
use iotex_analytics.Indexer.Batching.{
  go_on, raws_from, index_in_batch_lem, index_in_batch-last_height,
}

-- The protocol panics on every block, and no call of the database fails.
abbrev pub Panics : {D S B : Type 0} → Protocol D S B → Type 0
Panics {D} {S} {B} p =
    (b : B) (w : World D S)
    → w.faults ≡ []
    → ((p.handle_block b w).0 ≡ panic) × ((p.handle_block b w).1.faults ≡ [])

module _ {D S B : Type 0} (p : Protocol D S B) (ps : List (Protocol D S B))
    (panics : Panics p) where
  build_index-lost :
      (b : B) (w : World D S)
      → w.faults ≡ []
      → ((build_index (p ∷ ps) b w).0 ≡ ok tt)
        × ((build_index (p ∷ ps) b w).1.db ≡ w.db)
        × ((build_index (p ∷ ps) b w).1.faults ≡ [])
  unfolding build_index transact finish for_each wrap_error ◌>>=◌
  build_index-lost b w h = ground (arith, h, panics b w h)

  module _ (chain : Chain B) where
    open chain use {Raw, get_raw_blocks, convert, height}

    -- What holds of the indexer between two blocks.
    abbrev IsReady : Indexer D S B → Type 0
    IsReady idx = (idx.index_protocols ≡ p ∷ ps) × (idx.world.faults ≡ [])

    index_block-lost :
        (raw : Raw) (b : B) (idx : Indexer D S B)
        → convert raw ≡ ok b
        → IsReady idx
        → (idx' : Indexer D S B) × (index_block chain raw idx ≡ (ok tt, idx'))
          × (idx'.world.db ≡ idx.world.db)
          × IsReady idx'
    unfolding index_block
    index_block-lost raw b idx c (protocols, no_faults) =
        let (done, same, faults) = build_index-lost b idx.world no_faults in
        (
          record idx { last_height = height b; world = (build_index (p ∷ ps) b idx.world).1 },
          ground (arith, c, protocols, done),
          same,
          (protocols, faults),
        )

    module _ (at : ℕ → Raw) (converts : (h : ℕ) → (b : B) × (convert (at h) ≡ ok b)) where
      index_blocks-lost :
          (n s : ℕ) (idx : Indexer D S B)
          → IsReady idx
          → (idx' : Indexer D S B) × (index_blocks chain (raws_from at s n) idx ≡ (ok tt, idx'))
            × (idx'.world.db ≡ idx.world.db)
      unfolding index_blocks
      index_blocks-lost zero s idx ready = (idx, refl, refl)
      index_blocks-lost (suc n) s idx ready =
          let (b, c) = converts s in
          let (next, first, same, ready') = index_block-lost (at s) b idx c ready in
          let (idx', rest, same') = index_blocks-lost n (s + 1) next ready' in
          (idx', ap (go_on chain (raws_from at (s + 1) n)) first ∙ rest, same' ∙ same)

      -- Where the first protocol panics on every block, no call of the database fails, the client serves
      -- every request from one chain whose blocks can be converted and have the heights at which they are
      -- served, the query limit is positive, the last height is below the tip and the tip below
      -- 2 ^ 64 - 1: IndexInBatch returns nil with the last height at the tip, and the database as it was.
      pub index_in_batch-lost :
          (limit tip : ℕ) (idx : Indexer D S B)
          → ((s c : ℕ) → get_raw_blocks s c ≡ ok (raws_from at s c))
          → ((h : ℕ) (b : B) → convert (at h) ≡ ok b → height b ≡ h)
          → 0 < limit
          → tip + 1 < u64
          → idx.last_height < tip
          → idx.index_protocols ≡ p ∷ ps
          → idx.world.faults ≡ []
          → (idx' : Indexer D S B) × (index_in_batch chain limit tip idx ≡ some (ok tt, idx'))
            × (idx'.last_height ≡ tip)
            × (idx'.world.db ≡ idx.world.db)
      index_in_batch-lost limit tip idx serves heights pos small below protocols no_faults =
          let (idx', ran, same) =
            index_blocks-lost (tip - idx.last_height) (idx.last_height + 1) idx
              (protocols, no_faults) in
          let returns =
            index_in_batch_lem chain at serves limit tip idx pos small below
            ∙ ap (λ q. some q) ran in
          (
            idx',
            returns,
            index_in_batch-last_height chain at serves heights limit tip idx idx' pos small below
                returns,
            same,
          )
