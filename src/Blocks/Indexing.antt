-- ===== src/Blocks/Indexing.antt =====
-- The block index as a protocol of the indexer: indexprotocol/blocks/protocol.go run by IndexInBatch
-- of indexservice/indexer.go.
use iotex_analytics.Common.{ℕ, ◌≡◌, some, [], ◌∷◌, String, Go}
use iotex_analytics.Epoch.{EpochCtx}
use iotex_analytics.Store.{Run, pure}
use iotex_analytics.Indexer.{Protocol, Indexer, Chain, index_in_batch}
use iotex_analytics.Indexer.Commits.{index_in_batch-preserves}
use iotex_analytics.Blocks.Delegates.{Producers, Clients}
use iotex_analytics.Blocks.{Block, Blocks, handle_block}
use iotex_analytics.Blocks.Rows.{IsConsistent, handle_block-IsConsistent}

-- The protocol, over its `CreateTables`. Its `Initialize` does nothing.
abbrev pub blocks_protocol :
    Run Blocks Producers (Unit {0})
    → Clients
    → EpochCtx
    → ℕ
    → String
    → Protocol Blocks Producers Block
blocks_protocol create clients ctx gravity_start scheme = record {
  create_tables = create;
  initialize = pure tt;
  handle_block = handle_block clients ctx gravity_start scheme;
}

-- Indexing the chain with the block index alone, however it ends, whatever the clients answer and
-- whichever calls of the database fail: when no two rows of block_history had one height and each had
-- the epoch number of its height, the same is so of the rows afterwards.
pub index_in_batch-IsConsistent :
    (create : Run Blocks Producers (Unit {0})) (clients : Clients) (ctx : EpochCtx)
    (gravity_start : ℕ) (scheme : String) (chain : Chain Block) (limit tip : ℕ)
    (idx : Indexer Blocks Producers Block) (r : Go (Unit {0}))
    (idx' : Indexer Blocks Producers Block)
    → idx.index_protocols ≡ blocks_protocol create clients ctx gravity_start scheme ∷ []
    → IsConsistent ctx idx.world.db.block_history
    → index_in_batch chain limit tip idx ≡ some (r, idx')
    → IsConsistent ctx idx'.world.db.block_history
index_in_batch-IsConsistent create clients ctx gravity_start scheme chain limit tip idx r idx' e c
      q =
    index_in_batch-preserves (λ db. IsConsistent ctx db.block_history) chain limit tip idx r idx'
      (rw e ((λ blk w p _. handle_block-IsConsistent ctx clients gravity_start scheme blk w p), tt))
      c q
