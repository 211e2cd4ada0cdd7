-- ===== src/Store/Atomic.antt =====
-- What a transaction leaves behind.
use iotex_analytics.Common.{◌≡◌, ◌⊎◌, none, ok, arith}
use iotex_analytics.Store.{World, Run, next_fault, transact}

module _ {D S : Type 0} where
  -- The world in which the function of the transaction runs.
  abbrev pub begun : World D S → World D S
  begun w = (next_fault w).1

  -- A transaction is all or nothing: the database is what the function left, and then the function
  -- and Transact returned nil, or it is what it was before.
  pub transact_atomic :
      (f : Run D S (Unit {0})) (w : World D S)
      → ((transact f w).1.db ≡ w.db)
        ⊎ (((transact f w).1.db ≡ (f (begun w)).1.db)
            × ((f (begun w)).0 ≡ ok tt)
            × ((transact f w).0 ≡ ok tt))
  unfolding transact
  transact_atomic f w = ground arith

  -- Memory is no part of the transaction: when BEGIN succeeds, what the function wrote there stays,
  -- however it ended.
  pub transact_memory :
      (f : Run D S (Unit {0})) (w : World D S)
      → (next_fault w).0 ≡ none
      → (transact f w).1.memory ≡ (f (begun w)).1.memory
  unfolding transact
  transact_memory f w b = ground arith
