-- ===== src/Blocks/Recorded.antt =====
-- HandleBlock of indexprotocol/blocks/protocol.go: the row that it adds to block_history.
use iotex_analytics.Common.{
  ℕ, ◌≡◌, refl, false, ◌&&◌, ◌||◌, List, [], ◌∷◌, ◌++◌, String, Go, ok, sub64, ◌==◌, str_eq, arith,
}
use iotex_analytics.Epoch.{EpochCtx, get_epoch_number, get_epoch_height}
use iotex_analytics.Store.{World, exec, get_memory}
use iotex_analytics.Store.Keeps.{get_memory-Keeps, wrap_error-Keeps, if-Keeps}
use iotex_analytics.Store.Returns.{Returns, >>=-Returns, lift->>=-Returns}
use iotex_analytics.Blocks.Memory.{update_delegates-Keeps, rebuild_productivity_table-Keeps}
use iotex_analytics.Blocks.Rows.{insert_block_history-ok}
use iotex_analytics.Blocks.Delegates.{Producers, Clients}
use iotex_analytics.Blocks.{
  BlockHistory, Blocks, Block, has_height, insert_block_history, expected_producer, block_row,
  update_block_history, record_block, handle_block, is_nil, no_counts, count_actions, gas_consumed,
}

-- The rows are these.
abbrev Has : List BlockHistory → Blocks → Type 0
Has rows db = db.block_history ≡ rows

-- One row for the block was added to rows that had none of its height.
pub record IsRecorded (ctx : EpochCtx) (blk : Block) (before after : List BlockHistory)
    : Type 0 where
  pub row : BlockHistory
  pub appended : after ≡ before ++ row ∷ []
  pub height_is_new : has_height blk.height before ≡ false
  pub height_of : row.block_height ≡ blk.height
  pub epoch_of : get_epoch_number ctx blk.height ≡ ok row.epoch_number
  pub counts_of : row.counts ≡ count_actions blk.actions no_counts
  pub gas_of : row.gas ≡ gas_consumed blk.receipts 0
  pub producer_of : row.producer_address ≡ blk.producer_address
  pub timestamp_of : row.timestamp ≡ blk.timestamp

exec-ok :
    {S : Type 0} (statement : Blocks → Go Blocks) (w : World Blocks S) (a : Unit {0})
    → (exec statement w).0 ≡ ok a
    → statement w.db ≡ ok (exec statement w).1.db
unfolding exec
exec-ok statement w a e = ground (arith, e)

module _ (ctx : EpochCtx) (blk : Block) (rows : List BlockHistory) where
  abbrev Recorded : Blocks → Type 0
  Recorded db = IsRecorded ctx blk rows db.block_history

  row-Returns :
      (epoch : ℕ) (m : Producers) (expected : String)
      → get_epoch_number ctx blk.height ≡ ok epoch
      → Returns (Has rows) Recorded (update_block_history (block_row epoch blk m expected))
  unfolding update_block_history
  row-Returns epoch m expected d w a p e =
      let row = block_row epoch blk m expected in
      let w' = (update_block_history row w).1 in
      let (is_new, added) =
        insert_block_history-ok row w.db w'.db (exec-ok (insert_block_history row) w a e) in
      record {
        row = row;
        appended = rw (← p) added;
        height_is_new = rw (← p) is_new;
        height_of = refl;
        epoch_of = d;
        counts_of = refl;
        gas_of = refl;
        producer_of = refl;
        timestamp_of = refl;
      }

  record_block-Returns :
      (epoch : ℕ)
      → get_epoch_number ctx blk.height ≡ ok epoch
      → Returns (Has rows) Recorded (record_block epoch blk)
  unfolding record_block
  record_block-Returns epoch d =
      >>=-Returns (Has rows) Recorded get_memory _ (get_memory-Keeps (Has rows)) (λ m.
        lift->>=-Returns (Has rows) Recorded (expected_producer blk.height m.active_block_producers)
          _ (λ expected _. row-Returns epoch m expected d))

  handle_block-Returns :
      (clients : Clients) (gravity_start : ℕ) (scheme : String)
      → Returns (Has rows) Recorded (handle_block clients ctx gravity_start scheme blk)
  unfolding handle_block
  handle_block-Returns clients gravity_start scheme =
      lift->>=-Returns (Has rows) Recorded (get_epoch_number ctx blk.height) _ (λ epoch e.
        lift->>=-Returns (Has rows) Recorded (get_epoch_height ctx epoch) _ (λ start _.
          >>=-Returns (Has rows) Recorded get_memory _ (get_memory-Keeps (Has rows)) (λ m.
            >>=-Returns (Has rows) Recorded _ _
              (if-Keeps (Has rows) (str_eq scheme "ROLLDPOS" && (blk.height == start || is_nil m)) _
                _
                (wrap_error-Keeps (Has rows) _ _
                  (update_delegates-Keeps (Has rows) clients ctx gravity_start blk.height epoch))
                (λ w p. p))
              (λ _.
                >>=-Returns (Has rows) Recorded _ _
                  (if-Keeps (Has rows) (blk.height == start) _ _
                    (wrap_error-Keeps (Has rows) _ _
                      (rebuild_productivity_table-Keeps (λ rs. rs ≡ rows) (sub64 epoch 1)))
                    (λ w p. p))
                  (λ _. record_block-Returns epoch e)))))

-- When HandleBlock of the block index returns nil, block_history had no row of the block's height, and
-- has one more row: of the block's height, producer and time, of the epoch number of that height, with
-- the counters of its actions and the gas of its receipts. The rows before it are unchanged.
pub handle_block-IsRecorded :
    (clients : Clients) (ctx : EpochCtx) (gravity_start : ℕ) (scheme : String) (blk : Block)
    (w : World Blocks Producers)
    → (handle_block clients ctx gravity_start scheme blk w).0 ≡ ok tt
    → IsRecorded ctx blk w.db.block_history
        (handle_block clients ctx gravity_start scheme blk w).1.db.block_history
handle_block-IsRecorded clients ctx gravity_start scheme blk w e =
    handle_block-Returns ctx blk w.db.block_history clients gravity_start scheme w tt refl e
