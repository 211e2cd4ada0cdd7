-- ===== src/Actions/Pairing.antt =====
-- HandleBlock of indexprotocol/actions/protocol.go: the two passes over a block match each action with
-- its receipt.
use iotex_analytics.Common.{
  ℕ, ◌≡◌, ◌≢◌, sym, ap, ◌∙◌, refl, Bool, true, false, some, List, [], ◌∷◌, ◌++◌, String, Assoc,
  bytes_eq, beq_ne, lookup, lookup_or, insert, lookup-insert_self, lookup-insert_ne, Go, ok,
  bind_go, All, str_eq, if◌then◌else◌, ◌&&◌, ◌==◌,
}
use iotex_analytics.Actions.Tables.{Receipt, Envelope, Block, ActionHistory, hex, status_text}
use iotex_analytics.Actions.{
  Hash, zero_hash, ActionInfo, ReceiptInfo, ActionMaps, ReceiptMaps, type_and_amount, info_of,
  collect_actions, add_receipt, collect_receipts, action_row, action_rows, collect,
}

-- No receipt of a list has this value of a field.
abbrev pub Lacks : (Receipt → Hash) → Hash → List Receipt → Type 0
Lacks key h = All (λ r. h ≢ key r)

abbrev pub caller_text : Envelope → String
caller_text s = elim s.caller [ ok a ↦ a | _ ↦ "" ]

-- There is a receipt for each action, the hashes of the actions and those of the receipts are
-- different from each other, no receipt has the hash 0, and every key has an address.
abbrev pub IsPaired : List Envelope → List Receipt → Type 0
IsPaired [] [] = Unit
IsPaired [] (r ∷ rs) = ⊥
IsPaired (s ∷ ss) [] = ⊥
IsPaired (s ∷ ss) (r ∷ rs) =
    (s.caller ≡ ok (caller_text s))
    × Lacks (λ q. q.action_hash) r.action_hash rs
    × Lacks (λ q. q.receipt_hash) r.receipt_hash rs
    × (r.receipt_hash ≢ zero_hash)
    × IsPaired ss rs

-- The row of an action and its receipt.
unfoldable pub paired_row : ℕ → Envelope → Receipt → ActionHistory
unfolding type_and_amount
paired_row height s r = record {
  action_type = (type_and_amount s.payload).0;
  action_hash = hex r.action_hash;
  receipt_hash = hex r.receipt_hash;
  block_height = height;
  from = caller_text s;
  recipient = s.destination;
  gas_price = s.gas_price;
  gas_consumed = r.gas_consumed;
  nonce = s.nonce;
  amount = (type_and_amount s.payload).1;
  receipt_status = status_text r.status;
}

abbrev pub paired_rows : ℕ → List Envelope → List Receipt → List ActionHistory
paired_rows height (s ∷ ss) (r ∷ rs) = paired_row height s r ∷ paired_rows height ss rs
paired_rows height _ _ = []

abbrev first_info : Envelope → Receipt → ActionInfo
first_info s r = info_of s r.action_hash (caller_text s)

-- What holds of the map after the first pass.
abbrev HasInfos : List Envelope → List Receipt → Assoc Hash ActionInfo → Type 0
HasInfos (s ∷ ss) (r ∷ rs) m = (lookup r.action_hash m ≡ some (first_info s r)) × HasInfos ss rs m
HasInfos _ _ m = Unit

HasInfos-insert :
    (ss : List Envelope) (rs : List Receipt) (m : Assoc Hash ActionInfo) (h : Hash) (i : ActionInfo)
    → Lacks (λ q. q.action_hash) h rs
    → HasInfos ss rs m
    → HasInfos ss rs (insert h i m)
HasInfos-insert [] rs m h i l k = tt
HasInfos-insert (s ∷ ss) [] m h i l k = tt
HasInfos-insert (s ∷ ss) (r ∷ rs) m h i (d, l) (e, k) =
    (rw (lookup-insert_ne h r.action_hash i m d) e, HasInfos-insert ss rs m h i l k)

abbrev with_action : String → Envelope → Receipt → String → ActionMaps → ActionMaps
with_action hermes s r caller m = record {
  infos = insert r.action_hash (info_of s r.action_hash caller) m.infos;
  hermes = if str_eq s.destination hermes then insert r.action_hash true m.hermes else m.hermes;
}

-- What the first pass leaves, on top of a map.
record FirstPass (hermes : String) (ss : List Envelope) (rs : List Receipt) (m : ActionMaps)
    : Type 0 where
  maps : ActionMaps
  runs : collect_actions hermes ss rs m ≡ ok maps
  infos : HasInfos ss rs maps.infos
  others : (h : Hash) → Lacks (λ q. q.action_hash) h rs → lookup h maps.infos ≡ lookup h m.infos

first_pass :
    (hermes : String) (ss : List Envelope) (rs : List Receipt) (m : ActionMaps)
    → IsPaired ss rs
    → FirstPass hermes ss rs m
unfolding collect_actions
first_pass hermes [] [] m p = record { maps = m; runs = refl; infos = tt; others = λ h l. refl }
first_pass hermes [] (r ∷ rs) m p = elim p [ ]
first_pass hermes (s ∷ ss) [] m p = elim p [ ]
first_pass hermes (s ∷ ss) (r ∷ rs) m (c, l, _, _, p) =
    let rest = first_pass hermes ss rs (with_action hermes s r (caller_text s) m) p in
    let after : String → Go ActionMaps =
      λ caller. collect_actions hermes ss rs (with_action hermes s r caller m) in
    record {
      maps = rest.maps;
      runs = ap (λ q. bind_go q after) c ∙ rest.runs;
      infos = (
        rw (rest.others r.action_hash l)
            (lookup-insert_self r.action_hash (first_info s r) m.infos),
        rest.infos,
      );
      others = λ h k.
          rw (rest.others h k.1)
            (lookup-insert_ne r.action_hash h (first_info s r) m.infos (λ e. k.0 (sym e)));
    }

abbrev receipt_info : Receipt → ReceiptInfo
receipt_info r = record {
  receipt_hash = hex r.receipt_hash;
  gas_consumed = r.gas_consumed;
  receipt_status = status_text r.status;
}

-- What holds of the maps after the second pass.
abbrev IsDone : List Envelope → List Receipt → ReceiptMaps → Type 0
IsDone (s ∷ ss) (r ∷ rs) m =
    (lookup r.action_hash m.infos
      ≡ some (record (first_info s r) { receipt_hash = r.receipt_hash }))
    × (lookup r.receipt_hash m.receipts ≡ some (receipt_info r))
    × IsDone ss rs m
IsDone _ _ m = Unit

-- What the second pass leaves, on top of the maps.
record SecondPass (hermes : Assoc Hash Bool) (ss : List Envelope) (rs : List Receipt)
    (m : ReceiptMaps) : Type 0 where
  maps : ReceiptMaps
  runs : collect_receipts hermes rs m ≡ ok maps
  done : IsDone ss rs maps
  other_infos :
      (h : Hash) → Lacks (λ q. q.action_hash) h rs → lookup h maps.infos ≡ lookup h m.infos
  other_receipts :
      (h : Hash) → Lacks (λ q. q.receipt_hash) h rs → lookup h maps.receipts ≡ lookup h m.receipts

abbrev with_receipt : Assoc Hash Bool → Receipt → ActionInfo → ReceiptMaps → ReceiptMaps
with_receipt hermes r info m = record {
  infos = insert r.action_hash (record info { receipt_hash = r.receipt_hash }) m.infos;
  receipts = insert r.receipt_hash (receipt_info r) m.receipts;
  hermes_receipts =
      if r.status == 1 && lookup_or false r.action_hash hermes
      then m.hermes_receipts ++ r ∷ []
      else m.hermes_receipts;
}

add_receipt_found :
    (hermes : Assoc Hash Bool) (r : Receipt) (info : ActionInfo) (m : ReceiptMaps)
    → lookup r.action_hash m.infos ≡ some info
    → add_receipt hermes r m ≡ ok (with_receipt hermes r info m)
unfolding add_receipt
add_receipt_found hermes r info m e = rw (e, add_receipt) refl

second_pass :
    (hermes : Assoc Hash Bool) (ss : List Envelope) (rs : List Receipt) (m : ReceiptMaps)
    → IsPaired ss rs
    → HasInfos ss rs m.infos
    → SecondPass hermes ss rs m
unfolding collect_receipts
second_pass hermes [] [] m p k = record {
  maps = m;
  runs = refl;
  done = tt;
  other_infos = λ h l. refl;
  other_receipts = λ h l. refl;
}
second_pass hermes [] (r ∷ rs) m p k = elim p [ ]
second_pass hermes (s ∷ ss) [] m p k = elim p [ ]
second_pass hermes (s ∷ ss) (r ∷ rs) m (c, la, lr, _, p) (e, k) =
    let info : ActionInfo = record (first_info s r) { receipt_hash = r.receipt_hash } in
    let rest =
      second_pass hermes ss rs (with_receipt hermes r (first_info s r) m) p
        (HasInfos-insert ss rs m.infos r.action_hash info la k) in
    record {
      maps = rest.maps;
      runs =
          ap (λ q. bind_go q (collect_receipts hermes rs))
            (add_receipt_found hermes r (first_info s r) m e)
          ∙ rest.runs;
      done = (
        rw (rest.other_infos r.action_hash la) (lookup-insert_self r.action_hash info m.infos),
        rw (rest.other_receipts r.receipt_hash lr)
            (lookup-insert_self r.receipt_hash (receipt_info r) m.receipts),
        rest.done,
      );
      other_infos = λ h l.
          rw (rest.other_infos h l.1)
            (lookup-insert_ne r.action_hash h info m.infos (λ q. l.0 (sym q)));
      other_receipts = λ h l.
          rw (rest.other_receipts h l.1)
            (lookup-insert_ne r.receipt_hash h (receipt_info r) m.receipts (λ q. l.0 (sym q)));
    }

action_row_found :
    (m : ReceiptMaps) (height : ℕ) (s : Envelope) (r : Receipt)
    → r.receipt_hash ≢ zero_hash
    → lookup r.action_hash m.infos
      ≡ some (record (first_info s r) { receipt_hash = r.receipt_hash })
    → lookup r.receipt_hash m.receipts ≡ some (receipt_info r)
    → action_row m height r ≡ ok (paired_row height s r)
unfolding action_row paired_row info_of
action_row_found m height s r z e e' =
    rw (e, action_row) (rw (beq_ne r.receipt_hash zero_hash z) (rw e' refl))

action_rows_done :
    (m : ReceiptMaps) (height : ℕ) (ss : List Envelope) (rs : List Receipt)
    → IsPaired ss rs
    → IsDone ss rs m
    → action_rows m height ss rs ≡ ok (paired_rows height ss rs)
unfolding action_rows
action_rows_done m height [] [] p d = refl
action_rows_done m height [] (r ∷ rs) p d = elim p [ ]
action_rows_done m height (s ∷ ss) [] p d = elim p [ ]
action_rows_done m height (s ∷ ss) (r ∷ rs) (_, _, _, z, p) (e, e', d) =
    let first = action_row_found m height s r z e e' in
    let rest = action_rows_done m height ss rs p d in rw first (rw rest refl)

-- Where a block has a receipt for each action, in their order, whose action hashes and receipt hashes
-- are different from each other, no receipt hash is 0 and every key has an address, the two passes of
-- HandleBlock return, and updateActionHistory gets from their maps one row for each action, in order,
-- with the gas, the status and the hash of its own receipt.
pub action_rows-collect :
    (hermes : String) (blk : Block)
    → IsPaired blk.actions blk.receipts
    → (m : ReceiptMaps) × (collect hermes blk ≡ ok m)
      × (action_rows m blk.height blk.actions blk.receipts
          ≡ ok (paired_rows blk.height blk.actions blk.receipts))
unfolding collect
action_rows-collect hermes blk p =
    let one = first_pass hermes blk.actions blk.receipts (record { infos = []; hermes = [] }) p in
    let two =
      second_pass one.maps.hermes blk.actions blk.receipts
        (record { infos = one.maps.infos; receipts = []; hermes_receipts = [] }) p one.infos in
    (
      two.maps,
      ap
            (λ q. bind_go q (λ (m : ActionMaps).
              collect_receipts m.hermes blk.receipts
                (record { infos = m.infos; receipts = []; hermes_receipts = [] })))
            one.runs
          ∙ two.runs,
      action_rows_done two.maps blk.height blk.actions blk.receipts p two.done,
    )
