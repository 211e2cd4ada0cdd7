-- ===== src/Indexer.antt =====
-- indexservice/indexer.go: the indexer drives the registered protocols over the blocks of the chain.
-- The chain client is code outside the repository: it is the parameter `get_raw_blocks`, which
-- answers a start height and a count, and `convert`, which makes a block of an answer.
pub mod Progress
pub mod Batching
pub mod Commits
pub mod Defaults
pub mod Lost
use iotex_analytics.Common.{
  ℕ, zero, suc, ◌+◌, ◌-◌, ◌≤◌, Bool, true, false, Option, none, some, List, [], ◌∷◌, ◌++◌, String,
  Error, Go, ok, err, abort, message, wrap, bind_go, wrapped, u64, add64, sub64, ltb, leb,
  if◌then◌else◌,
}
use iotex_analytics.Store.{World, Run, pure, ◌>>=◌, ◌>>◌, transact, for_each, wrap_error}
use iotex_analytics.Registry.{Registry, register}

-- indexprotocol.Protocol
pub record Protocol (D S B : Type 0) : Type 0 where
  pub create_tables : Run D S (Unit {0})
  pub initialize : Run D S (Unit {0})
  pub handle_block : B → Run D S (Unit {0})

-- The fields of Indexer that change, with the world.
pub record Indexer (D S B : Type 0) : Type 0 where
  pub registry : Registry (Protocol D S B)
  pub index_protocols : List (Protocol D S B)
  pub last_height : ℕ
  pub world : World D S

module _ {D S B : Type 0} where
  unfoldable pub register_protocol :
      String → Protocol D S B → Indexer D S B → Go (Unit {0}) × Indexer D S B
  register_protocol id p idx =
      let (r, registry') = register id p idx.registry in
      elim r [
        | ok _ ↦ (
          ok tt,
          record idx { registry = registry'; index_protocols = idx.index_protocols ++ p ∷ [] },
        )
        | err e ↦
            (err (wrap "failed to register index protocol" e), record idx { registry = registry' })
        | abort x ↦ (abort x, record idx { registry = registry' })
      ]

  unfoldable pub initialize_all : List (Protocol D S B) → Run D S (Unit {0})
  initialize_all ps = transact (
      for_each (λ (p : Protocol D S B). wrap_error "failed to initialize the protocol" p.initialize)
        ps)

  unfoldable pub create_tables_if_not_exist : List (Protocol D S B) → Run D S (Unit {0})
  create_tables_if_not_exist ps =
      for_each (λ (p : Protocol D S B). wrap_error "failed to create a table" p.create_tables) ps

  unfoldable pub build_index : List (Protocol D S B) → B → Run D S (Unit {0})
  build_index ps blk = transact (
      for_each
        (λ (p : Protocol D S B). wrap_error "failed to build index for block" (p.handle_block blk))
        ps)

-- The chain as the indexer sees it.
pub record Chain (B : Type 0) : Type 1 where
  pub Raw : Type 0
  pub get_raw_blocks : ℕ → ℕ → Go (List Raw)
  pub convert : Raw → Go B
  pub height : B → ℕ

-- How many blocks the next request asks for.
unfoldable pub batch_count : ℕ → ℕ → ℕ → ℕ
batch_count limit tip start =
    let left = add64 (sub64 tip start) 1 in if ltb left limit then left else limit

module _ {D S B : Type 0} (chain : Chain B) where
  open chain use {Raw, get_raw_blocks, convert, height}

  -- One block of an answer.
  unfoldable pub index_block : Raw → Indexer D S B → Go (Unit {0}) × Indexer D S B
  index_block raw idx =
      elim (wrapped "failed to convert block protobuf to raw block" (convert raw)) [
        | err e ↦ (err e, idx)
        | abort x ↦ (abort x, idx)
        | ok blk ↦
            let (r, w) = build_index idx.index_protocols blk idx.world in
            elim r [
              | ok _ ↦ (ok tt, record idx { last_height = height blk; world = w })
              | err e ↦
                  (err (wrap "failed to build index for the block" e), record idx { world = w })
              | abort x ↦ (abort x, record idx { world = w })
            ]
      ]

  -- `for _, blkInfo := range getRawBlocksRes.GetBlocks()`
  unfoldable pub index_blocks : List Raw → Indexer D S B → Go (Unit {0}) × Indexer D S B
  index_blocks [] idx = (ok tt, idx)
  index_blocks (raw ∷ raws) idx =
      let (r, idx') = index_block raw idx in
      elim r [ ok _ ↦ index_blocks raws idx' | err e ↦ (err e, idx') | abort x ↦ (abort x, idx') ]

  -- `for startHeight <= tipHeight`; `none` when the fuel runs out.
  unfoldable pub batch_loop : ℕ → ℕ → ℕ → ℕ → Indexer D S B → Option (Go (Unit {0}) × Indexer D S B)
  batch_loop zero limit tip start idx = none
  batch_loop (suc fuel) limit tip start idx =
      let count = batch_count limit tip start in
      elim (leb start tip) [
        | false ↦ some (ok tt, idx)
        | true ↦
            elim (wrapped "failed to get raw blocks from the chain" (get_raw_blocks start count)) [
              | err e ↦ some (err e, idx)
              | abort x ↦ some (abort x, idx)
              | ok raws ↦
                  let (r, idx') = index_blocks raws idx in
                  elim r [
                    | ok _ ↦ batch_loop fuel limit tip (add64 start count) idx'
                    | err e ↦ some (err e, idx')
                    | abort x ↦ some (abort x, idx')
                  ]
            ]
      ]

  -- The fuel is one round for each height that is left, and one more.
  unfoldable pub index_in_batch : ℕ → ℕ → Indexer D S B → Option (Go (Unit {0}) × Indexer D S B)
  index_in_batch limit tip idx =
      batch_loop (suc (suc tip - add64 idx.last_height 1)) limit tip (add64 idx.last_height 1) idx
