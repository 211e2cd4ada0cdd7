-- ===== src/Accounts.antt =====
-- indexprotocol/accounts/protocol.go: the transfers of each block, and the income of each account by
-- epoch. A table with a unique key is a map by that key, so `INSERT IGNORE` keeps what is there. The
-- answer of the chain client to GetTransactionLogByBlockHeight is a parameter.
pub mod Income
use iotex_analytics.Common.{
  ℕ, zero, suc, ◌+◌, Bool, true, false, Option, none, some, List, [], ◌∷◌, ◌++◌, String, Assoc,
  nat_eq, string_eq, lookup, lookup_or, insert, add_to, ℤ, pos, sub_ℕ, Go, ok, err, abort, ◌==◌,
  str_eq, if◌then◌else◌, sub64,
}
use iotex_analytics.Epoch.{EpochCtx, get_epoch_number, get_epoch_height}
use iotex_analytics.Store.{World, Run, pure, lift, ◌>>=◌, ◌>>◌, exec, query, wrap_error, for_each}

pub record BalanceHistory : Type 0 where
  pub epoch_number : ℕ
  pub block_height : ℕ
  pub action_hash : String
  pub action_type : String
  pub from : String
  pub recipient : String
  pub amount : ℕ

-- The tables of the protocol. The last three have the unique key (epoch_number, address).
pub record Accounts : Type 0 where
  pub balance_history : List BalanceHistory
  pub account_inflow : Assoc ℕ (Assoc String ℕ)
  pub account_outflow : Assoc ℕ (Assoc String ℕ)
  pub account_income : Assoc ℕ (Assoc String ℤ)

-- SUM(amount) of the rows of an epoch, grouped by an address.
unfoldable pub group_sum : (BalanceHistory → String) → ℕ → List BalanceHistory → Assoc String ℕ
group_sum key epoch [] = []
group_sum key epoch (r ∷ rs) =
    let rest = group_sum key epoch rs in
    if r.epoch_number == epoch then add_to (key r) r.amount rest else rest

-- INSERT IGNORE of rows by address.
unfoldable pub insert_ignore : {V : Type 0} → Assoc String V → Assoc String V → Assoc String V
insert_ignore [] m = m
insert_ignore ((a, v) ∷ rows) m =
    insert_ignore rows (elim (lookup a m) [ none ↦ insert a v m | some _ ↦ m ])

-- The rows of one side of the join: IFNULL(inflow, 0) - IFNULL(outflow, 0) for each of its addresses.
unfoldable pub incomes : Assoc String ℕ → Assoc String ℕ → Assoc String ℕ → Assoc String ℤ
incomes inflow outflow [] = []
incomes inflow outflow ((a, _) ∷ side) =
    (a, sub_ℕ (lookup_or 0 a inflow) (lookup_or 0 a outflow)) ∷ incomes inflow outflow side

unfoldable pub insert_account_inflow : ℕ → Accounts → Accounts
unfolding group_sum insert_ignore
insert_account_inflow epoch db = record db {
  account_inflow =
      insert epoch
        (insert_ignore (group_sum (λ r. r.recipient) epoch db.balance_history)
          (lookup_or [] epoch db.account_inflow))
        db.account_inflow;
}

unfoldable pub insert_account_outflow : ℕ → Accounts → Accounts
unfolding group_sum insert_ignore
insert_account_outflow epoch db = record db {
  account_outflow =
      insert epoch
        (insert_ignore (group_sum (λ r. r.from) epoch db.balance_history)
          (lookup_or [] epoch db.account_outflow))
        db.account_outflow;
}

-- The left join, then the right join. A row of both is the same row, and is kept once.
unfoldable pub insert_account_income : ℕ → Accounts → Accounts
unfolding incomes insert_ignore
insert_account_income epoch db =
    let t1 = lookup_or [] epoch db.account_inflow in
    let t2 = lookup_or [] epoch db.account_outflow in
    record db {
      account_income =
          insert epoch
            (insert_ignore (incomes t1 t2 t1 ++ incomes t1 t2 t2)
              (lookup_or [] epoch db.account_income))
            db.account_income;
    }

pub data TransactionLogType : Type 0 where
  in_contract_transfer withdraw_bucket create_bucket deposit_to_bucket : TransactionLogType
  claim_from_rewarding_fund deposit_to_rewarding_fund : TransactionLogType
  candidate_registration_fee candidate_self_stake gas_fee native_transfer : TransactionLogType
  other_type : ℕ → TransactionLogType

unfoldable pub get_action_type : TransactionLogType → String
get_action_type in_contract_transfer = "execution"
get_action_type withdraw_bucket = "stakeWithdraw"
get_action_type create_bucket = "stakeCreate"
get_action_type deposit_to_bucket = "stakeAddDeposit"
get_action_type claim_from_rewarding_fund = "claimFromRewardingFund"
get_action_type deposit_to_rewarding_fund = "depositToRewardingFund"
get_action_type candidate_registration_fee = "candidateRegisterFee"
get_action_type candidate_self_stake = "candidateRegisterSelfStake"
get_action_type gas_fee = "gasFee"
get_action_type native_transfer = "transfer"
get_action_type (other_type n) = ""

pub record Transaction : Type 0 where
  pub log_type : TransactionLogType
  pub sender : String
  pub recipient : String
  pub amount : ℕ

abbrev by_hash :
    List (String × List Transaction)
    → Assoc String (List Transaction)
    → Assoc String (List Transaction)
by_hash [] m = m
by_hash ((h, ts) ∷ logs) m = by_hash logs (insert h ts m)

-- The transactions by action hash. An error of the client is dropped, and the map is empty then.
unfoldable pub get_transaction_log :
    Go (List (String × List Transaction)) → Go (Assoc String (List Transaction))
get_transaction_log (ok logs) = ok (by_hash logs [])
get_transaction_log (err e) = ok []
get_transaction_log (abort x) = abort x

abbrev has_hash : String → List BalanceHistory → Bool
has_hash h [] = false
has_hash h (r ∷ rs) = let rest = has_hash h rs in if str_eq r.action_hash h then true else rest

module _ {S : Type 0} where
  unfoldable pub update_balance_history : BalanceHistory → Run Accounts S (Unit {0})
  update_balance_history row = wrap_error "failed to update balance history" (
      exec (λ (db : Accounts). ok (record db { balance_history = db.balance_history ++ row ∷ [] })))

  unfoldable pub rebuild_account_income_table : ℕ → Run Accounts S (Unit {0})
  unfolding insert_account_inflow insert_account_outflow insert_account_income
  rebuild_account_income_table zero = pure tt
  rebuild_account_income_table (suc n) = exec (λ db. ok (insert_account_inflow (suc n) db)) >>= λ _.
      exec (λ db. ok (insert_account_outflow (suc n) db)) >>= λ _.
      exec (λ db. ok (insert_account_income (suc n) db))

  -- Whether the height is the first of its epoch decides on the rebuilding of the epoch before.
  unfoldable pub handle_block :
      EpochCtx → ℕ → Go (List (String × List Transaction)) → Run Accounts S (Unit {0})
  unfolding get_epoch_number get_epoch_height rebuild_account_income_table update_balance_history
      get_transaction_log get_action_type
  handle_block ctx height answer = lift (get_epoch_number ctx height) >>= λ epoch.
      lift (get_epoch_height ctx epoch) >>= λ start.
      (if height == start
        then wrap_error "failed to rebuild account income table"
            (rebuild_account_income_table (sub64 epoch 1))
        else pure tt)
      >>= λ _. lift (get_transaction_log answer) >>= λ logs.
          for_each
            (λ (entry : String × List Transaction).
              for_each
                (λ (t : Transaction). wrap_error "failed to update balance history on height" (
                  update_balance_history (record {
                    epoch_number = epoch;
                    block_height = height;
                    action_hash = entry.0;
                    action_type = get_action_type t.log_type;
                    from = t.sender;
                    recipient = t.recipient;
                    amount = t.amount;
                  })))
                entry.1)
            logs

  -- Initialize: the balances of the genesis, unless there is a row of the special action hash.
  unfoldable pub initialize : String → Assoc String ℕ → Run Accounts S (Unit {0})
  initialize special balances =
      wrap_error "failed to check if the row exists" (
        wrap_error "failed to query the row"
          (query (λ (db : Accounts). has_hash special db.balance_history)))
      >>= λ exist.
          if exist
          then pure tt
          else for_each
              (λ (entry : String × ℕ). wrap_error "failed to update balance history for address" (
                exec (λ (db : Accounts). ok (record db {
                  balance_history =
                      db.balance_history
                      ++ record {
                        epoch_number = 0;
                        block_height = 0;
                        action_hash = special;
                        action_type = "genesis";
                        from = "";
                        recipient = entry.0;
                        amount = entry.1;
                      }
                        ∷ [];
                }))))
              balances
