-- ===== src/Actions/TokenRows.antt =====
-- updateXrc20History of indexprotocol/actions/xrc20.go: the rows and the holders that a block adds.
use iotex_analytics.Common.{
  ℕ, Bool, not, ◌&&◌, List, [], ◌∷◌, ◌++◌, String, bytes_eq, ◌=?◌, length, any, Go, ok, err, abort,
  foreign, ◌==◌, str_eq, if◌then◌else◌,
}
use iotex_analytics.Store.{Run, pure, lift, ◌>>=◌, exec, fold_run}
use iotex_analytics.Paging.Pages.{take, drop}
use iotex_analytics.Actions.Tables.{
  ContractLog, Receipt, Block, TokenHistory, TokenHolder, Actions, Contracts, hex, status_text,
}
use iotex_analytics.Actions.Tokens.{Reader, check_is_xrc20, check_is_xrc721, parse_contract_data}

-- What the loop over the logs collects for the two kinds of tokens.
pub record Collected : Type 0 where
  pub rows : List TokenHistory
  pub holders : List TokenHolder
  pub xrc721_rows : List TokenHistory
  pub xrc721_holders : List TokenHolder

abbrev pub concat : List (List ℕ) → List ℕ
concat [] = []
concat (t ∷ ts) = hex t ++ concat ts

abbrev pub two_holders : Block → String → String → String → List TokenHolder
two_holders blk addr from recipient =
    record { contract = addr; holder = from; timestamp = blk.timestamp }
    ∷ record { contract = addr; holder = recipient; timestamp = blk.timestamp }
    ∷ []

-- What a log that is a transfer adds. An error of ParseContractData is logged, and the row is kept.
unfoldable pub add_transfer :
    Reader → Block → Receipt → ContractLog → Bool → Bool → Collected → Go Collected
unfolding parse_contract_data
add_transfer r blk receipt l is_xrc20 is_xrc721 c =
    let topics = concat l.topics in
    let topics' = if is_xrc721 then take 192 topics else topics in
    let payload' = if is_xrc721 then drop 192 topics else hex l.payload in
    let row : TokenHistory = record {
      action_hash = hex l.action_hash;
      receipt_hash = hex receipt.receipt_hash;
      address = l.address;
      topics = topics';
      payload = payload';
      block_height = l.block_height;
      index = l.index;
      timestamp = blk.timestamp;
      status = status_text receipt.status;
    } in
    let c' : Collected = record c {
      rows = if is_xrc20 then c.rows ++ row ∷ [] else c.rows;
      xrc721_rows = if is_xrc721 then c.xrc721_rows ++ row ∷ [] else c.xrc721_rows;
    } in
    elim (parse_contract_data r topics' payload') [
      | err e ↦ ok c'
      | abort x ↦ abort x
      | ok (from, recipient, _) ↦
          let added = two_holders blk l.address from recipient in
          ok (record c' {
            holders = if is_xrc20 then c.holders ++ added else c.holders;
            xrc721_holders = if is_xrc721 then c.xrc721_holders ++ added else c.xrc721_holders;
          })
    ]

module _ {D : Type 0} (r : Reader) (blk : Block) where
  unfoldable pub collect_log : Receipt → Collected → ContractLog → Run D Contracts Collected
  unfolding check_is_xrc20 check_is_xrc721 add_transfer
  collect_log receipt c l =
      let topics = concat l.topics in
      check_is_xrc20 r l.address topics (hex l.payload) >>= λ is_xrc20.
      check_is_xrc721 r l.address topics (hex l.payload) >>= λ is_xrc721.
      (if not is_xrc20 && not is_xrc721
        then pure c
        else lift (add_transfer r blk receipt l is_xrc20 is_xrc721 c))

  unfoldable pub collect_receipt : Collected → Receipt → Run D Contracts Collected
  unfolding collect_log
  collect_receipt c receipt = fold_run (collect_log receipt) c receipt.logs

abbrev pub same_receipt : TokenHistory → TokenHistory → Bool
same_receipt r q = r.receipt_hash =? q.receipt_hash

abbrev pub same_holder : TokenHolder → TokenHolder → Bool
same_holder h k = str_eq h.contract k.contract && str_eq h.holder k.holder

-- INSERT IGNORE into a history, whose receipt_hash is unique: of the rows of a receipt the first one
-- is kept.
unfoldable pub insert_history : List TokenHistory → List TokenHistory → List TokenHistory
insert_history [] rows = rows
insert_history (r ∷ rs) rows =
    let kept = if any (λ q. same_receipt q r) rows then rows else rows ++ r ∷ [] in
    insert_history rs kept

-- INSERT IGNORE into the holders, with the primary key (contract, holder).
unfoldable pub insert_holders : List TokenHolder → List TokenHolder → List TokenHolder
insert_holders [] rows = rows
insert_holders (h ∷ hs) rows =
    let kept = if any (λ k. same_holder k h) rows then rows else rows ++ h ∷ [] in
    insert_holders hs kept

-- A statement that ends in VALUES without a row is refused.
abbrev pub with_rows : {A : Type 0} → List A → Actions → Go Actions
with_rows [] db = err (foreign 1064)
with_rows (_ ∷ _) db = ok db

unfoldable pub insert_xrc20 : Collected → Run Actions Contracts (Unit {0})
unfolding insert_history insert_holders
insert_xrc20 c =
    if length c.rows == 0
    then pure tt
    else exec (λ db.
      with_rows c.rows (record db { xrc20_history = insert_history c.rows db.xrc20_history }))
      >>= λ _. exec (λ db.
        with_rows c.holders
          (record db { xrc20_holders = insert_holders c.holders db.xrc20_holders }))

unfoldable pub insert_xrc721 : Collected → Run Actions Contracts (Unit {0})
unfolding insert_history insert_holders
insert_xrc721 c =
    if length c.xrc721_holders == 0
    then pure tt
    else exec (λ db.
      with_rows c.xrc721_rows
        (record db { xrc721_history = insert_history c.xrc721_rows db.xrc721_history }))
      >>= λ _. exec (λ db.
        with_rows c.xrc721_holders
          (record db { xrc721_holders = insert_holders c.xrc721_holders db.xrc721_holders }))

unfoldable pub update_xrc20_history : Reader → Block → Run Actions Contracts (Unit {0})
unfolding collect_receipt insert_xrc20 insert_xrc721
update_xrc20_history r blk =
    fold_run (collect_receipt r blk)
      (record { rows = []; holders = []; xrc721_rows = []; xrc721_holders = [] }) blk.receipts
    >>= λ c. insert_xrc20 c >>= λ _. insert_xrc721 c
