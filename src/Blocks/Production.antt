-- ===== src/Blocks/Production.antt =====
-- rebuildProductivityTable of indexprotocol/blocks/protocol.go: the productivity that it stores for a
-- name and an epoch.
use iotex_analytics.Common.{
  ℕ, zero, suc, ◌+◌, ◌≡◌, refl, inl, inr, Bool-cases, Option, none, some, List, [], ◌∷◌, String,
  Assoc, nat_eq, string_eq, lookup, lookup_or, ◌=?◌, eq_iff, lookup-insert, sum_by, ok, ◌==◌,
  if◌then◌else◌, arith,
}
use iotex_analytics.Store.{World, ◌>>=◌, exec}
use iotex_analytics.Accounts.{insert_ignore}
use iotex_analytics.Accounts.Income.{lookup-insert_ignore, stored, lookup_or-insert_ignore_new}
use iotex_analytics.Rewards.{Productivity}
use iotex_analytics.RewardTables.{join_production}
use iotex_analytics.Blocks.Delegates.{Producers}
use iotex_analytics.Blocks.{
  BlockHistory, Blocks, count_rows, insert_expected_producer, insert_producer, insert_productivity,
  rebuild_productivity_table,
}

-- How many rows of an epoch have a name.
abbrev pub counted : (BlockHistory → String) → ℕ → String → List BlockHistory → ℕ
counted key epoch a =
    sum_by (λ r. if r.epoch_number == epoch then (if key r =? a then 1 else 0) else 0)

abbrev positive : ℕ → Option ℕ
positive zero = none
positive (suc n) = some (suc n)

lookup_or-positive : (n : ℕ) → elim (positive n) [ none ↦ 0 | some v ↦ v ] ≡ n
lookup_or-positive zero = refl
lookup_or-positive (suc n) = refl

lookup-count_rows :
    (key : BlockHistory → String) (epoch : ℕ) (rows : List BlockHistory) (a : String)
    → lookup a (count_rows key epoch rows) ≡ positive (counted key epoch a rows)
unfolding count_rows
lookup-count_rows key epoch [] a = refl
lookup-count_rows key epoch (r ∷ rows) a = ground (
  arith,
  lookup-count_rows key epoch rows a,
  lookup-count_rows key epoch rows (key r),
  eq_iff (key r) a,
  lookup-insert (key r) a (lookup_or 0 (key r) (count_rows key epoch rows) + 1)
      (count_rows key epoch rows),
)

lookup-join_production :
    (produced m : Assoc String ℕ) (a : String)
    → lookup a (join_production produced m) ≡ elim (lookup a m) [
      | none ↦ none
      | some expected ↦
          some (record { production = lookup_or 0 a produced; expected_production = expected })
    ]
unfolding join_production
lookup-join_production produced [] a = refl
lookup-join_production produced ((k, v) ∷ m) a = elim (Bool-cases (k =? a)) [
  | inl h ↦ rw h (rw ((eq_iff k a).0 h) refl)
  | inr h ↦ rw h (lookup-join_production produced m a)
]

-- The productivity of a name in an epoch, as the table has it.
abbrev pub productivity_of : Blocks → ℕ → String → Option Productivity
productivity_of db epoch a = lookup a (lookup_or [] epoch db.productivity_history)

-- No row of the epoch was stored before.
pub record IsFresh (epoch : ℕ) (db : Blocks) : Type 0 where
  pub expected : lookup epoch db.expected_producer_history ≡ none
  pub produced : lookup epoch db.producer_history ≡ none
  pub productivity : lookup epoch db.productivity_history ≡ none

-- What the rows of block_history say of a name: nothing when no row of the epoch expects it.
abbrev pub productivity_in : List BlockHistory → ℕ → String → Option Productivity
productivity_in rows epoch a = elim (counted (λ r. r.expected_producer_name) epoch a rows) [
  | zero ↦ none
  | suc n ↦ some (record {
    production = counted (λ r. r.producer_name) epoch a rows;
    expected_production = suc n;
  })
]

abbrev rebuilt : ℕ → Blocks → Blocks
rebuilt epoch db =
    insert_productivity epoch (insert_producer epoch (insert_expected_producer epoch db))

productivity_of-rebuilt :
    (epoch : ℕ) (db : Blocks) (a : String)
    → IsFresh epoch db
    → productivity_of (rebuilt epoch db) epoch a ≡ productivity_in db.block_history epoch a
unfolding insert_productivity insert_producer insert_expected_producer
productivity_of-rebuilt epoch db a f =
    let expected = count_rows (λ r. r.expected_producer_name) epoch db.block_history in
    let produced = count_rows (λ r. r.producer_name) epoch db.block_history in
    let t1 = insert_ignore expected [] in
    let t2 = insert_ignore produced [] in
    rw (stored epoch expected db.expected_producer_history f.expected) (
      rw (stored epoch produced db.producer_history f.produced) (
        rw (stored epoch (join_production t2 t1) db.productivity_history f.productivity) (
          ground (
            arith,
            lookup-insert_ignore (join_production t2 t1) [] a,
            lookup-join_production t2 t1 a,
            lookup-insert_ignore expected [] a,
            lookup_or-insert_ignore_new 0 produced a,
            lookup-count_rows (λ r. r.expected_producer_name) epoch db.block_history a,
            lookup-count_rows (λ r. r.producer_name) epoch db.block_history a,
          ))))

-- The world in which no call of the database fails.
abbrev pub calm : Blocks → Producers → World Blocks Producers
calm db memory = record { db = db; memory = memory; faults = [] }

rebuild-runs :
    (n : ℕ) (db : Blocks) (memory : Producers)
    → rebuild_productivity_table (suc n) (calm db memory)
      ≡ (ok tt, calm (rebuilt (suc n) db) memory)
unfolding rebuild_productivity_table exec ◌>>=◌
rebuild-runs n db memory = refl

-- Without faults, rebuilding the productivity of an epoch of which no row is stored returns. A name
-- has a row then when some row of block_history of the epoch expects it, with the number of rows that
-- it produced and the number of rows that expect it; a name that no row expects has none.
pub rebuild_productivity_table-counts :
    (n : ℕ) (db : Blocks) (memory : Producers) (a : String)
    → IsFresh (suc n) db
    → ((rebuild_productivity_table (suc n) (calm db memory)).0 ≡ ok tt)
      × (productivity_of (rebuild_productivity_table (suc n) (calm db memory)).1.db (suc n) a
          ≡ productivity_in db.block_history (suc n) a)
rebuild_productivity_table-counts n db memory a h =
    rw (rebuild-runs n db memory) (refl, productivity_of-rebuilt (suc n) db a h)
