-- ===== src/Accounts/Income.antt =====
-- rebuildAccountIncomeTable: the income that it stores for an address and an epoch.
use iotex_analytics.Common.{
  ℕ, suc, ◌≡◌, refl, inl, inr, Bool-cases, Option-cases, none, some, List, [], ◌∷◌, ◌++◌, String,
  Assoc, nat_eq, string_eq, lookup, lookup_or, insert, ◌=?◌, eq_iff, lookup-insert,
  lookup-insert_self, lookup_or-add_to, sum_by, ℤ, pos, sub_ℕ, ok, ◌==◌, if◌then◌else◌, arith,
}
use iotex_analytics.Store.{World, ◌>>=◌, exec}
use iotex_analytics.Accounts.{
  BalanceHistory, Accounts, group_sum, insert_ignore, incomes, insert_account_inflow,
  insert_account_outflow, insert_account_income, rebuild_account_income_table,
}

-- What the rows of an epoch move by way of an address.
abbrev pub moved : (BalanceHistory → String) → ℕ → String → List BalanceHistory → ℕ
moved key epoch a =
    sum_by (λ r. if r.epoch_number == epoch then (if key r =? a then r.amount else 0) else 0)

pub lookup_or-group_sum :
    (key : BalanceHistory → String) (epoch : ℕ) (rows : List BalanceHistory) (a : String)
    → lookup_or 0 a (group_sum key epoch rows) ≡ moved key epoch a rows
unfolding group_sum
lookup_or-group_sum key epoch [] a = refl
lookup_or-group_sum key epoch (r ∷ rows) a = ground (
  arith,
  lookup_or-group_sum key epoch rows a,
  lookup_or-add_to (key r) a r.amount (group_sum key epoch rows),
)

-- INSERT IGNORE: the row that is there, or else the first of the new ones.
pub lookup-insert_ignore :
    {V : Type 0} (rows m : Assoc String V) (a : String)
    → lookup a (insert_ignore rows m) ≡ elim (lookup a m) [ none ↦ lookup a rows | some v ↦ some v ]
unfolding insert_ignore
lookup-insert_ignore [] m a = elim (Option-cases (lookup a m)) [
  | inl h ↦ rw h refl
  | inr (v, h) ↦ rw h refl
]
lookup-insert_ignore ((k, v) ∷ rows) m a = elim (Option-cases (lookup k m)) [
  | inl n ↦ rw n (
      ground
        (arith, n, lookup-insert_ignore rows (insert k v m) a, lookup-insert k a v m, eq_iff k a))
  | inr (w, n) ↦ rw n (ground (arith, n, lookup-insert_ignore rows m a, eq_iff k a))
]

pub stored :
    {V : Type 0} (epoch : ℕ) (rows : Assoc String V) (m : Assoc ℕ (Assoc String V))
    → lookup epoch m ≡ none
    → lookup_or [] epoch (insert epoch (insert_ignore rows (lookup_or [] epoch m)) m)
      ≡ insert_ignore rows []
stored epoch rows m h =
    rw (lookup-insert_self epoch (insert_ignore rows (lookup_or [] epoch m)) m, lookup_or)
      (rw (h, lookup_or) refl)

pub lookup_or-insert_ignore_new :
    {V : Type 0} (d : V) (rows : Assoc String V) (a : String)
    → lookup_or d a (insert_ignore rows []) ≡ lookup_or d a rows
lookup_or-insert_ignore_new d rows a = rw (lookup-insert_ignore rows [] a, lookup_or) refl

lookup-incomes :
    (inflow outflow side : Assoc String ℕ) (a : String)
    → lookup a (incomes inflow outflow side) ≡ elim (lookup a side) [
      | none ↦ none
      | some _ ↦ some (sub_ℕ (lookup_or 0 a inflow) (lookup_or 0 a outflow))
    ]
unfolding incomes
lookup-incomes inflow outflow [] a = refl
lookup-incomes inflow outflow ((k, v) ∷ side) a = elim (Bool-cases (k =? a)) [
  | inl h ↦ rw h (rw ((eq_iff k a).0 h) refl)
  | inr h ↦ rw h (lookup-incomes inflow outflow side a)
]

lookup-append :
    {V : Type 0} (xs ys : Assoc String V) (a : String)
    → lookup a (xs ++ ys) ≡ elim (lookup a xs) [ none ↦ lookup a ys | some v ↦ some v ]
lookup-append [] ys a = refl
lookup-append ((k, v) ∷ xs) ys a = elim (Bool-cases (k =? a)) [
  | inl h ↦ rw h refl
  | inr h ↦ rw h (lookup-append xs ys a)
]

-- The union of the two joins has the difference for every address of either side.
lookup_or-joined :
    (t1 t2 : Assoc String ℕ) (a : String)
    → lookup_or (pos 0) a (incomes t1 t2 t1 ++ incomes t1 t2 t2)
      ≡ sub_ℕ (lookup_or 0 a t1) (lookup_or 0 a t2)
lookup_or-joined t1 t2 a = ground (
  arith,
  lookup-append (incomes t1 t2 t1) (incomes t1 t2 t2) a,
  lookup-incomes t1 t2 t1 a,
  lookup-incomes t1 t2 t2 a,
)

-- The income of an address in an epoch, as the table has it.
abbrev pub income_of : Accounts → ℕ → String → ℤ
income_of db epoch a = lookup_or (pos 0) a (lookup_or [] epoch db.account_income)

-- No row of the epoch was stored before.
pub record IsFresh (epoch : ℕ) (db : Accounts) : Type 0 where
  pub inflow : lookup epoch db.account_inflow ≡ none
  pub outflow : lookup epoch db.account_outflow ≡ none
  pub income : lookup epoch db.account_income ≡ none

abbrev pub rebuilt : ℕ → Accounts → Accounts
rebuilt epoch db =
    insert_account_income epoch (insert_account_outflow epoch (insert_account_inflow epoch db))

income_of-rebuilt :
    (epoch : ℕ) (db : Accounts) (a : String)
    → IsFresh epoch db
    → income_of (rebuilt epoch db) epoch a
      ≡ sub_ℕ
          (moved (λ r. r.recipient) epoch a db.balance_history)
          (moved (λ r. r.from) epoch a db.balance_history)
unfolding insert_account_income insert_account_outflow insert_account_inflow
income_of-rebuilt epoch db a f =
    let to_rows = group_sum (λ r. r.recipient) epoch db.balance_history in
    let from_rows = group_sum (λ r. r.from) epoch db.balance_history in
    let t1 = insert_ignore to_rows [] in
    let t2 = insert_ignore from_rows [] in
    rw (stored epoch to_rows db.account_inflow f.inflow) (
      rw (stored epoch from_rows db.account_outflow f.outflow) (
        rw (stored epoch (incomes t1 t2 t1 ++ incomes t1 t2 t2) db.account_income f.income) (
          rw (lookup_or-insert_ignore_new (pos 0) (incomes t1 t2 t1 ++ incomes t1 t2 t2) a) (
            rw (lookup_or-joined t1 t2 a) (
              rw
                (
                  lookup_or-insert_ignore_new 0 to_rows a,
                  lookup_or-insert_ignore_new 0 from_rows a,
                  lookup_or-group_sum (λ r. r.recipient) epoch db.balance_history a,
                  lookup_or-group_sum (λ r. r.from) epoch db.balance_history a,
                )
                refl)))))

module _ {S : Type 0} where
  -- The world in which no call of the database fails.
  abbrev pub calm : Accounts → S → World Accounts S
  calm db memory = record { db = db; memory = memory; faults = [] }

  rebuild-runs :
      (n : ℕ) (db : Accounts) (memory : S)
      → rebuild_account_income_table (suc n) (calm db memory)
        ≡ (ok tt, calm (rebuilt (suc n) db) memory)
  unfolding rebuild_account_income_table exec ◌>>=◌
  rebuild-runs n db memory = refl

  -- Without faults, rebuilding an epoch of which no row is stored returns, and gives every address
  -- what it received less what it sent in the rows of that epoch, zero where it has none.
  pub rebuild_account_income_table-income :
      (n : ℕ) (db : Accounts) (memory : S) (a : String)
      → IsFresh (suc n) db
      → ((rebuild_account_income_table (suc n) (calm db memory)).0 ≡ ok tt)
        × (income_of (rebuild_account_income_table (suc n) (calm db memory)).1.db (suc n) a
            ≡ sub_ℕ
                (moved (λ r. r.recipient) (suc n) a db.balance_history)
                (moved (λ r. r.from) (suc n) a db.balance_history))
  rebuild_account_income_table-income n db memory a h =
      rw (rebuild-runs n db memory) (refl, income_of-rebuilt (suc n) db a h)
