-- ===== src/Actions.antt =====
-- indexprotocol/actions/protocol.go: the rows of the actions of a block, and what follows from their
-- receipts: the transfers of tokens (Tokens, TokenRows), the buckets and the distributions of Hermes
-- (Distribution). Tables has the blocks and the tables.
pub mod Tables
pub mod Tokens
pub mod TokenRows
pub mod Distribution
pub mod Pairing
pub mod LastEvent
pub mod Recorded
pub mod TransferText
use iotex_analytics.Common.{
  ℕ, ◌+◌, Bool, true, false, ◌&&◌, ◌||◌, Option, none, some, List, [], ◌∷◌, ◌++◌, String, Assoc,
  bytes_eq, nat_eq, ◌=?◌, lookup, lookup_or, insert, length, any, replicate, Go, ok, err, abort,
  message, foreign, panic, bind_go, ◌==◌, str_eq, if◌then◌else◌,
}
use iotex_analytics.Epoch.{EpochCtx, get_epoch_number}
use iotex_analytics.Store.{Run, pure, lift, ◌>>=◌, exec}
use Tables.{
  Receipt, Payload, transfer, execution, deposit_to_rewarding_fund, claim_from_rewarding_fund,
  create_stake, deposit_to_stake, candidate_register, grant_reward, unstake, withdraw_stake,
  restake, change_candidate, transfer_stake, candidate_update, put_poll_result, other_payload,
  Envelope, Block, ActionHistory, Actions, Contracts, hex, status_text,
}
use Tokens.{Reader}
use TokenRows.{update_xrc20_history}
use Distribution.{Abi, update_hermes_contract, update_bucket_actions}

abbrev pub Hash : Type 0
Hash = List ℕ

abbrev pub zero_hash : Hash
zero_hash = replicate 32 0

pub record ActionInfo : Type 0 where
  pub action_type : String
  pub action_hash : List ℕ
  pub receipt_hash : Hash
  pub from : String
  pub recipient : String
  pub gas_price : String
  pub nonce : ℕ
  pub amount : String

pub record ReceiptInfo : Type 0 where
  pub receipt_hash : List ℕ
  pub gas_consumed : ℕ
  pub receipt_status : String

-- The type and the amount of an action.
unfoldable pub type_and_amount : Payload → String × String
type_and_amount (transfer amount) = ("transfer", amount)
type_and_amount (execution amount) = ("execution", amount)
type_and_amount (deposit_to_rewarding_fund amount) = ("depositToRewardingFund", amount)
type_and_amount (claim_from_rewarding_fund amount) = ("claimFromRewardingFund", amount)
type_and_amount grant_reward = ("grantReward", "0")
type_and_amount (create_stake amount) = ("stakeCreate", amount)
type_and_amount unstake = ("stakeUnstake", "0")
type_and_amount withdraw_stake = ("stakeWithdraw", "0")
type_and_amount (deposit_to_stake amount) = ("stakeAddDeposit", amount)
type_and_amount restake = ("stakeRestake", "0")
type_and_amount change_candidate = ("stakeChangeCandidate", "0")
type_and_amount transfer_stake = ("stakeTransferOwnership", "0")
type_and_amount (candidate_register amount) = ("candidateRegister", amount)
type_and_amount candidate_update = ("candidateUpdate", "0")
type_and_amount put_poll_result = ("putPollResult", "0")
type_and_amount (other_payload n) = ("", "0")

-- hashToActionInfo and hermesHashes
pub record ActionMaps : Type 0 where
  pub infos : Assoc Hash ActionInfo
  pub hermes : Assoc Hash Bool

abbrev pub info_of : Envelope → Hash → String → ActionInfo
unfolding type_and_amount
info_of selp hash caller = record {
  action_type = (type_and_amount selp.payload).0;
  action_hash = hex hash;
  receipt_hash = zero_hash;
  from = caller;
  recipient = selp.destination;
  gas_price = selp.gas_price;
  nonce = selp.nonce;
  amount = (type_and_amount selp.payload).1;
}

-- `for i, selp := range blk.Actions`, along with blk.Receipts[i], which may be out of range.
unfoldable pub collect_actions : String → List Envelope → List Receipt → ActionMaps → Go ActionMaps
collect_actions hermes [] receipts m = ok m
collect_actions hermes (selp ∷ selps) [] m = panic
collect_actions hermes (selp ∷ selps) (receipt ∷ receipts) m = bind_go selp.caller (λ caller.
    collect_actions hermes selps receipts (record {
      infos = insert receipt.action_hash (info_of selp receipt.action_hash caller) m.infos;
      hermes =
          if str_eq selp.destination hermes
          then insert receipt.action_hash true m.hermes
          else m.hermes;
    }))

-- hashToActionInfo with the hashes of the receipts, hashToReceiptInfo and hermesReceipts
pub record ReceiptMaps : Type 0 where
  pub infos : Assoc Hash ActionInfo
  pub receipts : Assoc Hash ReceiptInfo
  pub hermes_receipts : List Receipt

unfoldable pub add_receipt : Assoc Hash Bool → Receipt → ReceiptMaps → Go ReceiptMaps
add_receipt hermes receipt m = elim (lookup receipt.action_hash m.infos) [
  | none ↦ err (message "failed to find the corresponding action from receipt")
  | some info ↦ ok (record {
    infos =
        insert receipt.action_hash (record info { receipt_hash = receipt.receipt_hash }) m.infos;
    receipts =
        insert receipt.receipt_hash
          (record {
            receipt_hash = hex receipt.receipt_hash;
            gas_consumed = receipt.gas_consumed;
            receipt_status = status_text receipt.status;
          })
          m.receipts;
    hermes_receipts =
        if receipt.status == 1 && lookup_or false receipt.action_hash hermes
        then m.hermes_receipts ++ receipt ∷ []
        else m.hermes_receipts;
  })
]

-- `for _, receipt := range blk.Receipts`
unfoldable pub collect_receipts : Assoc Hash Bool → List Receipt → ReceiptMaps → Go ReceiptMaps
unfolding add_receipt
collect_receipts hermes [] m = ok m
collect_receipts hermes (r ∷ rs) m = bind_go (add_receipt hermes r m) (collect_receipts hermes rs)

-- The row of an action. A hash that is in no map is a nil pointer.
unfoldable pub action_row : ReceiptMaps → ℕ → Receipt → Go ActionHistory
action_row m height receipt = elim (lookup receipt.action_hash m.infos) [
  | none ↦ panic
  | some info ↦
      if info.receipt_hash =? zero_hash
      then err (message "action receipt is missing")
      else elim (lookup info.receipt_hash m.receipts) [
        | none ↦ panic
        | some r ↦ ok (record {
          action_type = info.action_type;
          action_hash = info.action_hash;
          receipt_hash = r.receipt_hash;
          block_height = height;
          from = info.from;
          recipient = info.recipient;
          gas_price = info.gas_price;
          gas_consumed = r.gas_consumed;
          nonce = info.nonce;
          amount = info.amount;
          receipt_status = r.receipt_status;
        })
      ]
]

-- `for i := range block.Actions`
unfoldable pub action_rows :
    ReceiptMaps → ℕ → List Envelope → List Receipt → Go (List ActionHistory)
unfolding action_row
action_rows m height [] receipts = ok []
action_rows m height (selp ∷ selps) [] = panic
action_rows m height (selp ∷ selps) (receipt ∷ receipts) =
    bind_go (action_row m height receipt)
      (λ row. bind_go (action_rows m height selps receipts) (λ rows. ok (row ∷ rows)))

abbrev pub clashes : ActionHistory → ActionHistory → Bool
clashes r q = r.action_hash =? q.action_hash || r.receipt_hash =? q.receipt_hash

-- One row after the other: the primary key action_hash, the unique receipt_hash, and the foreign key
-- to block_history.
unfoldable pub insert_rows :
    List ℕ → List ActionHistory → List ActionHistory → Go (List ActionHistory)
insert_rows heights [] rows = ok rows
insert_rows heights (r ∷ rs) rows =
    let rest = insert_rows heights rs (rows ++ r ∷ []) in
    if any (λ q. clashes q r) rows
    then err (foreign 1062)
    else if any (λ h. h == r.block_height) heights
    then rest
    else err (foreign 1452)

-- Without an action, the statement ends in VALUES, and the database refuses it.
unfoldable pub insert_action_history : List ActionHistory → Actions → Go Actions
unfolding insert_rows
insert_action_history [] db = err (foreign 1064)
insert_action_history (r ∷ rs) db =
    bind_go (insert_rows db.block_heights (r ∷ rs) db.action_history)
      (λ rows. ok (record db { action_history = rows }))

unfoldable pub update_action_history : ReceiptMaps → Block → Run Actions Contracts (Unit {0})
unfolding action_rows insert_action_history
update_action_history m blk = lift (action_rows m blk.height blk.actions blk.receipts) >>= λ rows.
    exec (insert_action_history rows)

-- The two passes of HandleBlock over the block.
unfoldable pub collect : String → Block → Go ReceiptMaps
unfolding collect_actions collect_receipts
collect hermes blk =
    bind_go (collect_actions hermes blk.actions blk.receipts (record { infos = []; hermes = [] }))
      (λ m.
        collect_receipts m.hermes blk.receipts
          (record { infos = m.infos; receipts = []; hermes_receipts = [] }))

unfoldable pub handle_block :
    Reader → Abi → EpochCtx → String → Block → Run Actions Contracts (Unit {0})
unfolding collect update_action_history update_xrc20_history update_bucket_actions get_epoch_number
    update_hermes_contract
handle_block reader abi ctx hermes blk = lift (collect hermes blk) >>= λ m.
    update_action_history m blk >>= λ _. update_xrc20_history reader blk >>= λ _.
    update_bucket_actions abi blk >>= λ _.
    (if length m.hermes_receipts == 0
      then pure tt
      else lift (get_epoch_number ctx blk.height) >>= λ epoch.
          update_hermes_contract abi m.hermes_receipts epoch blk.timestamp_text)
