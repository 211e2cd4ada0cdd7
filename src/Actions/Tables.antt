-- ===== src/Actions/Tables.antt =====
-- What the action index reads of a block, and its tables (indexprotocol/actions). A text that the code
-- cuts or searches is the list of its bytes, as a hash is.
use iotex_analytics.Common.{ℕ, Bool, Option, List, String, Assoc, bytes_eq, Go, ◌==◌, if◌then◌else◌}
use iotex_analytics.DelegateName.Hex.{hex_encode}

-- action.Log
pub record ContractLog : Type 0 where
  pub address : String
  pub topics : List (List ℕ)
  pub payload : List ℕ
  pub action_hash : List ℕ
  pub block_height : ℕ
  pub index : ℕ

-- action.Receipt, with the hash that its method Hash gives
pub record Receipt : Type 0 where
  pub action_hash : List ℕ
  pub receipt_hash : List ℕ
  pub status : ℕ
  pub gas_consumed : ℕ
  pub logs : List ContractLog

-- The type switch of HandleBlock. The amounts are the decimal texts of the big integers.
pub data Payload : Type 0 where
  transfer execution deposit_to_rewarding_fund claim_from_rewarding_fund : String → Payload
  create_stake deposit_to_stake candidate_register : String → Payload
  grant_reward unstake withdraw_stake restake change_candidate transfer_stake : Payload
  candidate_update put_poll_result : Payload
  other_payload : ℕ → Payload

-- action.SealedEnvelope. The address of its key is the answer of the address package.
pub record Envelope : Type 0 where
  pub caller : Go String
  pub destination : String
  pub gas_price : String
  pub nonce : ℕ
  pub payload : Payload

pub record Block : Type 0 where
  pub height : ℕ
  pub actions : List Envelope
  pub receipts : List Receipt
  pub timestamp : ℕ
  pub timestamp_text : String

pub record ActionHistory : Type 0 where
  pub action_type : String
  pub action_hash : List ℕ
  pub receipt_hash : List ℕ
  pub block_height : ℕ
  pub from : String
  pub recipient : String
  pub gas_price : String
  pub gas_consumed : ℕ
  pub nonce : ℕ
  pub amount : String
  pub receipt_status : String

-- A row of xrc20_history or of xrc721_history.
pub record TokenHistory : Type 0 where
  pub action_hash : List ℕ
  pub receipt_hash : List ℕ
  pub address : String
  pub topics : List ℕ
  pub payload : List ℕ
  pub block_height : ℕ
  pub index : ℕ
  pub timestamp : ℕ
  pub status : String

-- A row of xrc20_holders or of xrc721_holders.
pub record TokenHolder : Type 0 where
  pub contract : String
  pub holder : String
  pub timestamp : ℕ

pub record HermesContractInfo : Type 0 where
  pub epoch_number : ℕ
  pub action_hash : List ℕ
  pub from_epoch : ℕ
  pub to_epoch : ℕ
  pub delegate_name : List ℕ
  pub timestamp : String

pub record BucketAction : Type 0 where
  pub action_hash : List ℕ
  pub bucket_id : ℕ

-- The tables of the protocol, and of block_history the heights, which a foreign key refers to.
-- bucket_actions is there only when something else has created it.
pub record Actions : Type 0 where
  pub block_heights : List ℕ
  pub action_history : List ActionHistory
  pub xrc20_history : List TokenHistory
  pub xrc20_holders : List TokenHolder
  pub xrc721_history : List TokenHistory
  pub xrc721_holders : List TokenHolder
  pub bucket_actions : Option (List BucketAction)
  pub hermes_contract : List HermesContractInfo

-- The package variables that remember which contract is what.
pub record Contracts : Type 0 where
  pub xrc20_contract : Assoc String Bool
  pub non_xrc20_contract : Assoc String Bool
  pub xrc721_contract : Assoc String Bool
  pub non_xrc721_contract : Assoc String Bool

-- hex.EncodeToString
abbrev pub hex : List ℕ → List ℕ
hex bs = hex_encode bs

abbrev pub status_text : ℕ → String
status_text status = if status == 1 then "success" else "failure"
