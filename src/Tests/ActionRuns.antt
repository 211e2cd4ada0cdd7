-- ===== src/Tests/ActionRuns.antt =====
-- The action index on one block: a transfer of tokens and a distribution of Hermes.
use iotex_analytics.Common.{
  ℕ, ◌+◌, ◌≡◌, panic, refl, true, false, none, some, List, [], ◌∷◌, ◌++◌, String, of_bytes,
  replicate, pos, Go, ok, fold_go, arith, add64, sub64, div64,
}
use iotex_analytics.Epoch.{EpochCtx, get_epoch_number, early_epoch_number}
use iotex_analytics.DelegateName.Hex.{hex_encode, hex_digit, hex_value}
use iotex_analytics.Store.{World, ◌>>=◌, get_memory, set_memory, exec, fold_run}
use iotex_analytics.Actions.Tables.{
  ContractLog, Receipt, Envelope, Payload, transfer, execution, Block, Actions, Contracts, hex,
}
use iotex_analytics.Actions.Tokens.{
  Reader, parse_contract_data, check_topics, check_xrc721_topics, read_contract, read_all,
  check_is_xrc20, check_is_xrc721, hex_digits, number_16, set_string_16,
}
use iotex_analytics.Actions.TokenRows.{
  add_transfer, collect_log, collect_receipt, insert_history, insert_holders, insert_xrc20,
  insert_xrc721, update_xrc20_history,
}
use iotex_analytics.Actions.Distribution.{
  Abi, distribute_event, events_back, get_distribute_event_from_log, get_delegate_name_from_topic,
  add_contract, insert_contracts, insert_hermes_contract, update_hermes_contract, set_bytes,
  bucket_rows, block_bucket_rows, insert_bucket_actions, insert_buckets, update_bucket_actions,
}
use iotex_analytics.Actions.{
  ReceiptMaps, type_and_amount, collect_actions, add_receipt, collect_receipts, action_row,
  action_rows, insert_rows, insert_action_history, update_action_history, collect, handle_block,
}
use iotex_analytics.Actions.Pairing.{IsPaired, paired_row, paired_rows, action_rows-collect}
use iotex_analytics.Actions.TransferText.{transfer_text, parse_contract_data-transfer_text}
use iotex_analytics.Actions.LastEvent.{
  get_distribute_event_from_log-last, get_delegate_name_from_topic_lem,
}
use iotex_analytics.Actions.Recorded.{handle_block-action_history}

abbrev sig : List ℕ
sig =
    221 ∷ 242 ∷ 82 ∷ 173 ∷ 27 ∷ 226 ∷ 200 ∷ 155 ∷ 105 ∷ 194 ∷ 176 ∷ 104 ∷ 252 ∷ 55 ∷ 141 ∷ 170 ∷ 149
    ∷ 43 ∷ 167 ∷ 241 ∷ 99 ∷ 196 ∷ 161 ∷ 22 ∷ 40 ∷ 245 ∷ 90 ∷ 77 ∷ 245 ∷ 35 ∷ 179 ∷ 239 ∷ []

abbrev address_of : ℕ → List ℕ
address_of n = replicate 20 n

abbrev word_of : ℕ → List ℕ
word_of n = replicate 12 0 ++ address_of n

abbrev hash_of : ℕ → List ℕ
hash_of n = replicate 32 n

abbrev amount : List ℕ
amount = replicate 31 0 ++ 7 ∷ []

-- Every contract is taken for an XRC20 token.
abbrev reader : Reader
reader = record {
  has_client = true;
  read = λ addr call. ok (1, "00");
  convert_address = λ a. ok (of_bytes a);
}

abbrev abi : Abi
abi = record {
  distribute_topic = hash_of 9;
  parsed = ok tt;
  unpack = λ payload. ok (3, 4);
  staking_address = ok "staking";
}

abbrev token_log : ContractLog
token_log = record {
  address = "token";
  topics = sig ∷ word_of 1 ∷ word_of 2 ∷ [];
  payload = amount;
  action_hash = hash_of 11;
  block_height = 1;
  index = 0;
}

abbrev hermes_log : ContractLog
hermes_log = record {
  address = "hermes";
  topics = hash_of 9 ∷ (97 ∷ 98 ∷ replicate 30 0) ∷ [];
  payload = [];
  action_hash = hash_of 12;
  block_height = 1;
  index = 1;
}

abbrev stake_log : ContractLog
stake_log = record {
  address = "staking";
  topics = hash_of 5 ∷ (replicate 30 0 ++ 1 ∷ 2 ∷ []) ∷ [];
  payload = [];
  action_hash = hash_of 12;
  block_height = 1;
  index = 2;
}

abbrev envelope : String → Payload → Envelope
envelope destination payload = record {
  caller = ok "me";
  destination = destination;
  gas_price = "1";
  nonce = 5;
  payload = payload;
}

abbrev receipt_of : ℕ → List ContractLog → Receipt
receipt_of n logs = record {
  action_hash = hash_of n;
  receipt_hash = hash_of (n + 100);
  status = 1;
  gas_consumed = 21;
  logs = logs;
}

abbrev two_actions : Block
two_actions = record {
  height = 1;
  actions = envelope "token" (execution "0") ∷ envelope "hermes" (transfer "8") ∷ [];
  receipts = receipt_of 11 (token_log ∷ []) ∷ receipt_of 12 (hermes_log ∷ stake_log ∷ []) ∷ [];
  timestamp = 1000;
  timestamp_text = "then";
}

two_actions-IsPaired : IsPaired two_actions.actions two_actions.receipts
two_actions-IsPaired = ground arith

action_rows-collect_example :
    (m : ReceiptMaps) × (collect "hermes" two_actions ≡ ok m)
    × (action_rows m 1 two_actions.actions two_actions.receipts
        ≡ ok (paired_rows 1 two_actions.actions two_actions.receipts))
action_rows-collect_example = action_rows-collect "hermes" two_actions two_actions-IsPaired

parse_contract_data-transfer_text_example :
    parse_contract_data reader [] (transfer_text sig (address_of 1) (address_of 2) amount)
    ≡ ok (of_bytes (hex (address_of 1)), of_bytes (hex (address_of 2)), pos (set_bytes 0 amount))
parse_contract_data-transfer_text_example =
    parse_contract_data-transfer_text reader sig (address_of 1) (address_of 2) amount []
      (transfer_text sig (address_of 1) (address_of 2) amount) _ _ refl refl refl refl
      (ground arith) refl refl refl

get_distribute_event_from_log-last_example :
    (get_distribute_event_from_log abi (token_log ∷ hermes_log ∷ stake_log ∷ [])
      ≡ ok (some (record { from_epoch = 3; to_epoch = 4; delegate_name = 97 ∷ 98 ∷ [] })))
    × (get_distribute_event_from_log abi (stake_log ∷ []) ≡ ok none)
unfolding distribute_event get_delegate_name_from_topic
get_distribute_event_from_log-last_example =
    get_distribute_event_from_log-last abi (token_log ∷ []) (stake_log ∷ []) hermes_log
      (record { from_epoch = 3; to_epoch = 4; delegate_name = 97 ∷ 98 ∷ [] }) (refl, tt) refl

get_delegate_name_from_topic_lem_example :
    (get_delegate_name_from_topic (97 ∷ 98 ∷ 0 ∷ 0 ∷ []) ≡ ok (97 ∷ 98 ∷ []))
    × (get_delegate_name_from_topic (97 ∷ 98 ∷ []) ≡ panic)
get_delegate_name_from_topic_lem_example =
    get_delegate_name_from_topic_lem (97 ∷ 98 ∷ []) (0 ∷ []) (ground arith)

-- The first block is there, and the table of the buckets is, or is not.
abbrev empty_tables : Actions
empty_tables = record {
  block_heights = 1 ∷ [];
  action_history = [];
  xrc20_history = [];
  xrc20_holders = [];
  xrc721_history = [];
  xrc721_holders = [];
  bucket_actions = none;
  hermes_contract = [];
}

abbrev with_buckets : Actions
with_buckets = record empty_tables { bucket_actions = some [] }

abbrev no_contracts : Contracts
no_contracts = record {
  xrc20_contract = [];
  non_xrc20_contract = [];
  xrc721_contract = [];
  non_xrc721_contract = [];
}

abbrev in_world : Actions → World Actions Contracts
in_world db = record { db = db; memory = no_contracts; faults = [] }

abbrev one_by_one : EpochCtx
one_by_one = record {
  num_candidate_delegates = 1;
  num_delegates = 1;
  num_sub_epochs = 1;
  num_sub_epochs_dardanelles = 0;
  dardanelles_height = 0;
  dardanelles_on = false;
  fairbank_height = 0;
}

abbrev run : Go (Unit {0}) × World Actions Contracts
run = handle_block reader abi one_by_one "hermes" two_actions (in_world with_buckets)

-- The block is indexed: two actions, one transfer of tokens with its two holders, one bucket and one
-- distribution.
run-returns :
    (run.0 ≡ ok tt)
    × (run.1.db.action_history ≡ paired_rows 1 two_actions.actions two_actions.receipts)
    × (run.1.db.bucket_actions
        ≡ some (record { action_hash = hex (hash_of 12); bucket_id = 258 } ∷ []))
    × (run.1.db.hermes_contract
        ≡ record {
          epoch_number = 1;
          action_hash = hex (hash_of 12);
          from_epoch = 3;
          to_epoch = 4;
          delegate_name = 97 ∷ 98 ∷ [];
          timestamp = "then";
        }
          ∷ [])
unfolding handle_block collect collect_actions collect_receipts add_receipt update_action_history
    action_rows action_row insert_action_history insert_rows paired_row type_and_amount hex_encode
    hex_digit update_xrc20_history collect_receipt collect_log check_is_xrc20 check_is_xrc721
    check_topics check_xrc721_topics read_all read_contract add_transfer parse_contract_data
    set_string_16 number_16 hex_digits hex_value insert_xrc20 insert_xrc721 insert_history
    insert_holders update_bucket_actions block_bucket_rows bucket_rows set_bytes insert_buckets
    insert_bucket_actions update_hermes_contract add_contract get_distribute_event_from_log
    events_back distribute_event get_delegate_name_from_topic insert_hermes_contract
    insert_contracts get_epoch_number early_epoch_number fold_go fold_run exec get_memory set_memory
    ◌>>=◌ add64 sub64 div64
run-returns = (refl, refl, refl, refl)

handle_block-action_history_example :
    run.1.db.action_history ≡ [] ++ paired_rows 1 two_actions.actions two_actions.receipts
handle_block-action_history_example =
    handle_block-action_history reader abi one_by_one "hermes" two_actions (in_world with_buckets)
      two_actions-IsPaired run-returns.0
