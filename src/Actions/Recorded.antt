-- ===== src/Actions/Recorded.antt =====
-- HandleBlock of indexprotocol/actions/protocol.go: what it leaves in the table of the actions.
use iotex_analytics.Common.{
  ℕ, ◌≡◌, ◌∙◌, ap, sym, not, ◌&&◌, List, [], ◌∷◌, ◌++◌, String, length, ok, bytes_eq, append_assoc,
  append_nil, bind_go-eq-ok, ◌==◌, if◌then◌else◌, arith,
}
use iotex_analytics.Epoch.{EpochCtx, get_epoch_number}
use iotex_analytics.Store.{World, Run, pure, lift, ◌>>=◌, exec, get_memory, set_memory}
use iotex_analytics.Store.Keeps.{Keeps, >>=-Keeps, if-Keeps, fold_run-Keeps, exec-Keeps}
use iotex_analytics.Store.Steps.{>>=-ok, >>=-then, exec-ok}
use iotex_analytics.Actions.Tables.{
  ContractLog, Receipt, Block, ActionHistory, Actions, Contracts, hex, BucketAction,
  HermesContractInfo,
}
use iotex_analytics.Actions.Tokens.{Reader, check_is_xrc20, check_is_xrc721}
use iotex_analytics.Actions.TokenRows.{
  Collected, concat, collect_log, collect_receipt, with_rows, insert_xrc20, insert_xrc721,
  update_xrc20_history,
}
use iotex_analytics.Actions.Distribution.{
  Abi, insert_buckets, insert_hermes_contract, insert_contracts, block_bucket_rows,
  update_hermes_contract, update_bucket_actions,
}
use iotex_analytics.Actions.{
  ReceiptMaps, insert_rows, insert_action_history, action_rows, update_action_history, collect,
  handle_block,
}
use iotex_analytics.Actions.Pairing.{IsPaired, paired_rows, action_rows-collect}

-- The kind of a contract is found without the database.
module _ {D : Type 0} (r : Reader) (addr : String) (topics payload : List ℕ)
    (w : World D Contracts) where
  check_is_xrc20_db : (check_is_xrc20 r addr topics payload w).1.db ≡ w.db
  unfolding check_is_xrc20 ◌>>=◌ get_memory set_memory
  check_is_xrc20_db = ground arith

  check_is_xrc721_db : (check_is_xrc721 r addr topics payload w).1.db ≡ w.db
  unfolding check_is_xrc721 ◌>>=◌ get_memory set_memory
  check_is_xrc721_db = ground arith

-- The steps behind updateActionHistory leave the rows of the actions.
module _ (rows : List ActionHistory) where
  abbrev HasRows : Actions → Type 0
  HasRows db = db.action_history ≡ rows

  abbrev Kept : {A : Type 0} → Run Actions Contracts A → Type 0
  Kept m = Keeps HasRows m

  module _ (r : Reader) (blk : Block) where
    collect_log-Kept :
        (receipt : Receipt) (c : Collected) (l : ContractLog) → Kept (collect_log r blk receipt c l)
    unfolding collect_log
    collect_log-Kept receipt c l =
        >>=-Keeps HasRows _ _
          (λ w u. rw (check_is_xrc20_db r l.address (concat l.topics) (hex l.payload) w) u)
          (λ is_xrc20.
            >>=-Keeps HasRows _ _
              (λ w u. rw (check_is_xrc721_db r l.address (concat l.topics) (hex l.payload) w) u)
              (λ is_xrc721.
                if-Keeps HasRows (not is_xrc20 && not is_xrc721) _ _ (λ w u. u) (λ w u. u)))

    collect_receipt-Kept :
        (c : Collected) (receipt : Receipt) → Kept (collect_receipt r blk c receipt)
    unfolding collect_receipt
    collect_receipt-Kept c receipt =
        fold_run-Keeps HasRows (collect_log r blk receipt) c receipt.logs (collect_log-Kept receipt)

  with_rows-HasRows :
      {A : Type 0} (new : List A) (db db' : Actions)
      → HasRows db
      → with_rows new db ≡ ok db'
      → HasRows db'
  with_rows-HasRows [] db db' u e = absurd (ground (arith, e))
  with_rows-HasRows (r ∷ new) db db' u e = let same : db ≡ db' = ground (arith, e) in rw (← same) u

  insert_xrc20-Kept : (c : Collected) → Kept (insert_xrc20 c)
  unfolding insert_xrc20
  insert_xrc20-Kept c =
      if-Keeps HasRows (length c.rows == 0) _ _ (λ w u. u)
        (>>=-Keeps HasRows _ _
          (exec-Keeps HasRows _ (λ db db' u e. with_rows-HasRows c.rows _ db' u e))
          (λ _. exec-Keeps HasRows _ (λ db db' u e. with_rows-HasRows c.holders _ db' u e)))

  insert_xrc721-Kept : (c : Collected) → Kept (insert_xrc721 c)
  unfolding insert_xrc721
  insert_xrc721-Kept c =
      if-Keeps HasRows (length c.xrc721_holders == 0) _ _ (λ w u. u)
        (>>=-Keeps HasRows _ _
          (exec-Keeps HasRows _ (λ db db' u e. with_rows-HasRows c.xrc721_rows _ db' u e))
          (λ _. exec-Keeps HasRows _ (λ db db' u e. with_rows-HasRows c.xrc721_holders _ db' u e)))

  update_xrc20_history-Kept : (r : Reader) (blk : Block) → Kept (update_xrc20_history r blk)
  unfolding update_xrc20_history
  update_xrc20_history-Kept r blk =
      >>=-Keeps HasRows _ _
        (fold_run-Keeps HasRows (collect_receipt r blk) _ blk.receipts (collect_receipt-Kept r blk))
        (λ c. >>=-Keeps HasRows _ _ (insert_xrc20-Kept c) (λ _. insert_xrc721-Kept c))

  insert_buckets-HasRows :
      (new : List BucketAction) (db db' : Actions)
      → HasRows db
      → insert_buckets new db ≡ ok db'
      → HasRows db'
  unfolding insert_buckets
  insert_buckets-HasRows new db db' u e =
      let same : db'.action_history ≡ db.action_history = ground (arith, e) in same ∙ u

  update_bucket_actions-Kept : (abi : Abi) (blk : Block) → Kept (update_bucket_actions abi blk)
  unfolding update_bucket_actions
  update_bucket_actions-Kept abi blk =
      >>=-Keeps HasRows _ _ (λ w u. u)
        (λ staking.
          if-Keeps HasRows (length (block_bucket_rows staking blk.receipts) == 0) _ _ (λ w u. u)
            (exec-Keeps HasRows _
              (insert_buckets-HasRows (block_bucket_rows staking blk.receipts))))

  insert_hermes-HasRows :
      (contracts : List HermesContractInfo) (db db' : Actions)
      → HasRows db
      → insert_hermes_contract contracts db ≡ ok db'
      → HasRows db'
  unfolding insert_hermes_contract
  insert_hermes-HasRows contracts db db' u e =
      let (new, inserted, rest) =
        bind_go-eq-ok (insert_contracts contracts db.hermes_contract)
          (λ new. ok (record db { hermes_contract = new })) e in
      let written : record db { hermes_contract = new } ≡ db' = ground (arith, rest) in
      rw (← written) u

  update_hermes_contract-Kept :
      (abi : Abi) (receipts : List Receipt) (epoch : ℕ) (timestamp : String)
      → Kept (update_hermes_contract abi receipts epoch timestamp)
  unfolding update_hermes_contract
  update_hermes_contract-Kept abi receipts epoch timestamp =
      >>=-Keeps HasRows _ _ (λ w u. u)
        (λ contracts.
          if-Keeps HasRows (length contracts == 0) _ _ (λ w u. u)
            (exec-Keeps HasRows _ (insert_hermes-HasRows contracts)))

insert_rows_ok :
    (heights : List ℕ) (new rows rows' : List ActionHistory)
    → insert_rows heights new rows ≡ ok rows'
    → rows' ≡ rows ++ new
unfolding insert_rows
insert_rows_ok heights [] rows rows' e =
    let same : rows ≡ rows' = ground (arith, e) in sym same ∙ sym (append_nil rows)
insert_rows_ok heights (r ∷ rs) rows rows' e =
    let rest : insert_rows heights rs (rows ++ r ∷ []) ≡ ok rows' = ground (arith, e) in
    insert_rows_ok heights rs (rows ++ r ∷ []) rows' rest ∙ append_assoc rows (r ∷ []) rs

insert_action_history_ok :
    (new : List ActionHistory) (db db' : Actions)
    → insert_action_history new db ≡ ok db'
    → db'.action_history ≡ db.action_history ++ new
unfolding insert_action_history
insert_action_history_ok [] db db' e = absurd (ground (arith, e))
insert_action_history_ok (r ∷ rs) db db' e =
    let (rows, inserted, rest) =
      bind_go-eq-ok (insert_rows db.block_heights (r ∷ rs) db.action_history)
        (λ rows. ok (record db { action_history = rows })) e in
    let written : record db { action_history = rows } ≡ db' = ground (arith, rest) in
    rw (← written) (insert_rows_ok db.block_heights (r ∷ rs) db.action_history rows inserted)

-- What HandleBlock does behind updateActionHistory.
abbrev behind : Reader → Abi → EpochCtx → Block → ReceiptMaps → Run Actions Contracts (Unit {0})
behind reader abi ctx blk m = update_xrc20_history reader blk >>= λ _.
    update_bucket_actions abi blk >>= λ _.
    (if length m.hermes_receipts == 0
      then pure tt
      else lift (get_epoch_number ctx blk.height) >>= λ epoch.
          update_hermes_contract abi m.hermes_receipts epoch blk.timestamp_text)

behind-Kept :
    (rows : List ActionHistory) (reader : Reader) (abi : Abi) (ctx : EpochCtx) (blk : Block)
    (m : ReceiptMaps)
    → Kept rows (behind reader abi ctx blk m)
behind-Kept rows reader abi ctx blk m =
    >>=-Keeps (HasRows rows) _ _ (update_xrc20_history-Kept rows reader blk) (λ _.
      >>=-Keeps (HasRows rows) _ _ (update_bucket_actions-Kept rows abi blk) (λ _.
        if-Keeps (HasRows rows) (length m.hermes_receipts == 0) _ _ (λ w u. u)
          (>>=-Keeps (HasRows rows) _ _ (λ w u. u)
            (λ epoch.
              update_hermes_contract-Kept rows abi m.hermes_receipts epoch blk.timestamp_text))))

-- When updateActionHistory returns, the rows that it is given stand behind those that were there.
update_action_history_ok :
    (m : ReceiptMaps) (blk : Block) (rows : List ActionHistory) (w : World Actions Contracts)
    → action_rows m blk.height blk.actions blk.receipts ≡ ok rows
    → (update_action_history m blk w).0 ≡ ok tt
    → (update_action_history m blk w).1.db.action_history ≡ w.db.action_history ++ rows
unfolding update_action_history
update_action_history_ok m blk rows w r h =
    let runs =
      >>=-then (lift (action_rows m blk.height blk.actions blk.receipts))
        (λ rows. exec (insert_action_history rows)) w rows r in
    let h' : (exec (insert_action_history rows) w).0 ≡ ok tt = ap (λ q. q.0) (sym runs) ∙ h in
    ap (λ q. q.1.db.action_history) runs
    ∙ insert_action_history_ok rows w.db (exec (insert_action_history rows) w).1.db
        (exec-ok (insert_action_history rows) w h')

-- When HandleBlock of the action index returns nil on a block with a receipt for each action, in their
-- order, whose action hashes and receipt hashes are different from each other, no receipt hash is 0 and
-- every key has an address, action_history is as it was, and behind it one row for each action, in
-- order, with the gas, the status and the hash of its own receipt.
pub handle_block-action_history :
    (reader : Reader) (abi : Abi) (ctx : EpochCtx) (hermes : String) (blk : Block)
    (w : World Actions Contracts)
    → IsPaired blk.actions blk.receipts
    → (handle_block reader abi ctx hermes blk w).0 ≡ ok tt
    → (handle_block reader abi ctx hermes blk w).1.db.action_history
      ≡ w.db.action_history ++ paired_rows blk.height blk.actions blk.receipts
unfolding handle_block
handle_block-action_history reader abi ctx hermes blk w p h =
    let (m, collected, rows_are) = action_rows-collect hermes blk p in
    let rows = paired_rows blk.height blk.actions blk.receipts in
    let after : ReceiptMaps → Run Actions Contracts (Unit {0}) =
      λ m. update_action_history m blk >>= λ _. behind reader abi ctx blk m in
    let passed : handle_block reader abi ctx hermes blk w ≡ after m w =
      >>=-then (lift (collect hermes blk)) after w m collected in
    let (u, recorded, rest) =
      >>=-ok (update_action_history m blk) (λ _. behind reader abi ctx blk m) w
        (ap (λ q. q.0) (sym passed) ∙ h) in
    ap (λ q. q.1.db.action_history)
      (passed
        ∙ >>=-then (update_action_history m blk) (λ _. behind reader abi ctx blk m) w tt recorded)
    ∙ behind-Kept (w.db.action_history ++ rows) reader abi ctx blk m
        (update_action_history m blk w).1 (update_action_history_ok m blk rows w rows_are recorded)
