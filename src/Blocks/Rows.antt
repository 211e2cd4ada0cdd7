-- ===== src/Blocks/Rows.antt =====
-- HandleBlock of indexprotocol/blocks/protocol.go: what holds of the rows of block_history.
use iotex_analytics.Common.{
  ℕ, ◌≡◌, refl, true, false, ◌&&◌, ◌||◌, List, [], ◌∷◌, ◌++◌, String, All, All-append, ok, sub64,
  ◌==◌, str_eq, if◌then◌else◌, arith,
}
use iotex_analytics.Epoch.{EpochCtx, get_epoch_number}
use iotex_analytics.Store.{World}
use iotex_analytics.Store.Keeps.{
  Keeps, get_memory-Keeps, wrap_error-Keeps, >>=-Keeps, lift->>=-Keeps, if-Keeps, exec-Keeps,
}
use iotex_analytics.Blocks.Memory.{update_delegates-Keeps, rebuild_productivity_table-Keeps}
use iotex_analytics.Blocks.Delegates.{Producers, Clients}
use iotex_analytics.Blocks.{
  BlockHistory, Blocks, Block, has_height, insert_block_history, update_block_history, record_block,
  handle_block, is_nil,
}

-- The rows of the blocks.
abbrev Distinct : List BlockHistory → Type 0
Distinct [] = Unit
Distinct (r ∷ rs) = (has_height r.block_height rs ≡ false) × Distinct rs

abbrev IsDated : EpochCtx → BlockHistory → Type 0
IsDated ctx r = get_epoch_number ctx r.block_height ≡ ok r.epoch_number

-- No two rows have one height, and each row has the epoch of its height.
pub record IsConsistent (ctx : EpochCtx) (rows : List BlockHistory) : Type 0 where
  pub distinct : Distinct rows
  pub dated : All (IsDated ctx) rows

has_height-append :
    (h : ℕ) (rs : List BlockHistory) (r : BlockHistory)
    → has_height h (rs ++ r ∷ []) ≡ (if has_height h rs then true else r.block_height == h)
has_height-append h [] r = ground arith
has_height-append h (q ∷ rs) r = ground (arith, has_height-append h rs r)

Distinct-append :
    (rs : List BlockHistory) (r : BlockHistory)
    → Distinct rs
    → has_height r.block_height rs ≡ false
    → Distinct (rs ++ r ∷ [])
Distinct-append [] r d h = (refl, tt)
Distinct-append (q ∷ rs) r (d, ds) h = (
  ground (arith, has_height-append q.block_height rs r, d, h),
  Distinct-append rs r ds (ground (arith, h)),
)

pub insert_block_history-ok :
    (row : BlockHistory) (db db' : Blocks)
    → insert_block_history row db ≡ ok db'
    → (has_height row.block_height db.block_history ≡ false)
      × (db'.block_history ≡ db.block_history ++ row ∷ [])
unfolding insert_block_history
insert_block_history-ok row db db' e = ground (arith, e)

insert_block_history-IsConsistent :
    (ctx : EpochCtx) (row : BlockHistory) (db db' : Blocks)
    → IsDated ctx row
    → IsConsistent ctx db.block_history
    → insert_block_history row db ≡ ok db'
    → IsConsistent ctx db'.block_history
insert_block_history-IsConsistent ctx row db db' d c e =
    let (is_new, rows) = insert_block_history-ok row db db' e in
    record {
      distinct = rw rows (Distinct-append db.block_history row c.distinct is_new);
      dated = rw rows (All-append (IsDated ctx) db.block_history (row ∷ []) c.dated (d, tt));
    }

module _ (ctx : EpochCtx) where
  abbrev P : Blocks → Type 0
  P db = IsConsistent ctx db.block_history

  update_block_history-Keeps :
      (row : BlockHistory) → IsDated ctx row → Keeps P (update_block_history row)
  unfolding update_block_history
  update_block_history-Keeps row d =
      exec-Keeps P (insert_block_history row)
        (λ db db' c e. insert_block_history-IsConsistent ctx row db db' d c e)

  record_block-Keeps :
      (epoch : ℕ) (blk : Block)
      → get_epoch_number ctx blk.height ≡ ok epoch
      → Keeps P (record_block epoch blk)
  unfolding record_block
  record_block-Keeps epoch blk e =
      >>=-Keeps P _ _ (get_memory-Keeps P)
        (λ m. >>=-Keeps P _ _ (λ w p. p) (λ expected. update_block_history-Keeps _ e))

  -- However HandleBlock of the block index ends, whatever the clients answer and whichever calls of
  -- the database fail: when no two rows of block_history had one height and each row had the epoch
  -- number of its height, the same is so of the rows afterwards.
  pub handle_block-IsConsistent :
      (clients : Clients) (gravity_start : ℕ) (scheme : String) (blk : Block)
      (w : World Blocks Producers)
      → IsConsistent ctx w.db.block_history
      → IsConsistent ctx (handle_block clients ctx gravity_start scheme blk w).1.db.block_history
  unfolding handle_block
  handle_block-IsConsistent clients gravity_start scheme blk =
      lift->>=-Keeps P (get_epoch_number ctx blk.height) _ (λ epoch e.
        >>=-Keeps P _ _ (λ w p. p)
          (λ start. >>=-Keeps P _ _ (get_memory-Keeps P) (λ m.
            >>=-Keeps P _ _
              (if-Keeps P (str_eq scheme "ROLLDPOS" && (blk.height == start || is_nil m)) _ _
                (wrap_error-Keeps P _ _
                  (update_delegates-Keeps P clients ctx gravity_start blk.height epoch))
                (λ w p. p))
              (λ _.
                >>=-Keeps P _ _
                  (if-Keeps P (blk.height == start) _ _
                    (wrap_error-Keeps P _ _
                      (rebuild_productivity_table-Keeps (IsConsistent ctx) (sub64 epoch 1)))
                    (λ w p. p))
                  (λ _. record_block-Keeps epoch blk e)))))
