-- ===== src/Actions/Distribution.antt =====
-- indexprotocol/actions/hermes.go and bucket.go: the distributions of Hermes, and the buckets that the
-- actions of a block touch.
use iotex_analytics.Common.{
  ℕ, zero, suc, ◌+◌, ◌*◌, Bool, Option, none, some, List, [], ◌∷◌, ◌++◌, String, bytes_eq, ◌=?◌,
  length, any, get_elem?, Go, ok, err, foreign, panic, bind_go, wrapped, not, ◌&&◌, ◌==◌, str_eq,
  if◌then◌else◌, fold_go,
}
use iotex_analytics.Store.{Run, pure, lift, ◌>>=◌, exec}
use iotex_analytics.Actions.Tables.{
  ContractLog, Receipt, Block, ActionHistory, HermesContractInfo, BucketAction, Actions, Contracts,
  hex,
}

-- The packages that the code calls: Keccak256 of the event's signature, abi.JSON of the constant text,
-- Unpack of the event, whose two epochs are cut to 64 bits, and the address of the staking protocol.
pub record Abi : Type 0 where
  pub distribute_topic : List ℕ
  pub parsed : Go (Unit {0})
  pub unpack : List ℕ → Go (ℕ × ℕ)
  pub staking_address : Go String

abbrev pub emitter_is_distribute_by_topic : Abi → List ℕ → Bool
emitter_is_distribute_by_topic abi topic = abi.distribute_topic =? topic

-- The bytes before the first zero byte. Without one, IndexByte is -1, and the slice panics.
unfoldable pub get_delegate_name_from_topic : List ℕ → Go (List ℕ)
get_delegate_name_from_topic [] = panic
get_delegate_name_from_topic (b ∷ bs) =
    let rest = get_delegate_name_from_topic bs in
    if b == 0 then ok [] else bind_go rest (λ name. ok (b ∷ name))

pub record DistributeEvent : Type 0 where
  pub from_epoch : ℕ
  pub to_epoch : ℕ
  pub delegate_name : List ℕ

-- The event of a log, where it is one.
unfoldable pub distribute_event : Abi → ContractLog → Go (Option DistributeEvent)
unfolding get_delegate_name_from_topic
distribute_event abi l = elim l.topics [
  | [] ↦ ok none
  | _ ∷ [] ↦ ok none
  | emitter ∷ (name ∷ _) ↦
      if emitter_is_distribute_by_topic abi emitter
      then bind_go abi.parsed (λ _. bind_go (abi.unpack l.payload) (λ epochs.
        bind_go (get_delegate_name_from_topic name) (λ delegate. ok (
          some (record { from_epoch = epochs.0; to_epoch = epochs.1; delegate_name = delegate })))))
      else ok none
]

-- `for num > 0 { num--; log := logs[num]; ... }`: from the last of the first `num` logs back.
unfoldable pub events_back : Abi → List ContractLog → ℕ → Go (Option DistributeEvent)
unfolding distribute_event
events_back abi logs zero = ok none
events_back abi logs (suc num) =
    let before = events_back abi logs num in
    elim (get_elem? logs num) [
      | none ↦ panic
      | some l ↦
          bind_go (distribute_event abi l)
            (λ found. elim found [ some e ↦ ok (some e) | none ↦ before ])
    ]

unfoldable pub get_distribute_event_from_log : Abi → List ContractLog → Go (Option DistributeEvent)
unfolding events_back
get_distribute_event_from_log abi logs = events_back abi logs (length logs)

unfoldable pub add_contract :
    Abi → ℕ → String → List HermesContractInfo → Receipt → Go (List HermesContractInfo)
unfolding get_distribute_event_from_log
add_contract abi epoch timestamp contracts receipt =
    bind_go
      (wrapped "failed to get distribute event information from log"
        (get_distribute_event_from_log abi receipt.logs))
      (λ found. elim found [
        | none ↦ ok contracts
        | some e ↦ ok (
            contracts
            ++ record {
              epoch_number = epoch;
              action_hash = hex receipt.action_hash;
              from_epoch = e.from_epoch;
              to_epoch = e.to_epoch;
              delegate_name = e.delegate_name;
              timestamp = timestamp;
            }
              ∷ [])
      ])

abbrev pub same_contract : HermesContractInfo → HermesContractInfo → Bool
same_contract c d = c.action_hash =? d.action_hash

-- INSERT, with the primary key action_hash.
unfoldable pub insert_contracts :
    List HermesContractInfo → List HermesContractInfo → Go (List HermesContractInfo)
insert_contracts [] rows = ok rows
insert_contracts (c ∷ cs) rows =
    let rest = insert_contracts cs (rows ++ c ∷ []) in
    if any (λ d. same_contract d c) rows then err (foreign 1062) else rest

unfoldable pub insert_hermes_contract : List HermesContractInfo → Actions → Go Actions
unfolding insert_contracts
insert_hermes_contract contracts db =
    bind_go (insert_contracts contracts db.hermes_contract)
      (λ rows. ok (record db { hermes_contract = rows }))

unfoldable pub update_hermes_contract :
    Abi → List Receipt → ℕ → String → Run Actions Contracts (Unit {0})
unfolding add_contract insert_hermes_contract
update_hermes_contract abi receipts epoch timestamp =
    lift (fold_go (add_contract abi epoch timestamp) [] receipts) >>= λ contracts.
    (if length contracts == 0 then pure tt else exec (insert_hermes_contract contracts))

-- big.Int.SetBytes, on top of `n`
unfoldable pub set_bytes : ℕ → List ℕ → ℕ
set_bytes n [] = n
set_bytes n (b ∷ bs) = set_bytes (n * 256 + b) bs

-- The rows of the logs of a receipt that the staking protocol wrote, with more than one topic.
unfoldable pub bucket_rows : String → List ℕ → List ContractLog → List BucketAction
unfolding set_bytes
bucket_rows staking hash [] = []
bucket_rows staking hash (l ∷ ls) =
    let rest = bucket_rows staking hash ls in
    if str_eq l.address staking
    then elim l.topics [
      | [] ↦ rest
      | _ ∷ [] ↦ rest
      | _ ∷ (bucket ∷ _) ↦ record { action_hash = hash; bucket_id = set_bytes 0 bucket } ∷ rest
    ]
    else rest

unfoldable pub block_bucket_rows : String → List Receipt → List BucketAction
unfolding bucket_rows
block_bucket_rows staking [] = []
block_bucket_rows staking (r ∷ rs) =
    bucket_rows staking (hex r.action_hash) r.logs ++ block_bucket_rows staking rs

abbrev pub is_of : BucketAction → ActionHistory → Bool
is_of b a = a.action_hash =? b.action_hash

abbrev pub same_bucket : BucketAction → BucketAction → Bool
same_bucket a b = a.action_hash =? b.action_hash

-- INSERT IGNORE, with the primary key action_hash, and a foreign key to action_history: a row that
-- breaks either is left out.
unfoldable pub insert_bucket_actions :
    List ActionHistory → List BucketAction → List BucketAction → List BucketAction
insert_bucket_actions history [] rows = rows
insert_bucket_actions history (a ∷ more) rows =
    let kept =
      if any (is_of a) history && not (any (λ b. same_bucket b a) rows)
      then rows ++ a ∷ []
      else rows in
    insert_bucket_actions history more kept

unfoldable pub insert_buckets : List BucketAction → Actions → Go Actions
unfolding insert_bucket_actions
insert_buckets rows db = elim db.bucket_actions [
  | none ↦ err (foreign 1146)
  | some before ↦
      ok (record db { bucket_actions = some (insert_bucket_actions db.action_history rows before) })
]

unfoldable pub update_bucket_actions : Abi → Block → Run Actions Contracts (Unit {0})
unfolding block_bucket_rows insert_buckets
update_bucket_actions abi blk = lift abi.staking_address >>= λ staking.
    if length (block_bucket_rows staking blk.receipts) == 0
    then pure tt
    else exec (insert_buckets (block_bucket_rows staking blk.receipts))
