-- ===== src/Tests/Transactions.antt =====
-- Transactions and the registry.
use iotex_analytics.Common.{ℕ, ◌≡◌, ◌≢◌, ◌⊎◌, none, some, [], ◌∷◌, String, message, ok, err}
use iotex_analytics.Store.{World, Run, transact}
use iotex_analytics.Store.Atomic.{begun, transact_atomic}
use iotex_analytics.Registry.{Registry, register, find}
use iotex_analytics.Registry.Laws.{find-register}

abbrev calm_world : World ℕ ℕ
calm_world = record { db = 1; memory = 2; faults = [] }

abbrev store_five : Run ℕ ℕ (Unit {0})
store_five w = (ok tt, record w { db = 5; memory = 7 })

transact_atomic_example :
    ((transact store_five calm_world).1.db ≡ 1)
    ⊎ (((transact store_five calm_world).1.db ≡ 5)
        × ((store_five (begun calm_world)).0 ≡ ok tt)
        × ((transact store_five calm_world).0 ≡ ok tt))
transact_atomic_example = transact_atomic store_five calm_world

abbrev one_protocol : Registry ℕ
one_protocol = record { protocols = ("blocks", 4) ∷ [] }

find-register_example :
    ((q : ℕ)
      → find "actions" one_protocol ≡ some q
      → ((register "actions" 6 one_protocol).0 ≡ err (message "Protocol is already registered"))
        × ((register "actions" 6 one_protocol).1 ≡ one_protocol))
    × (find "actions" one_protocol ≡ none
        → ((register "actions" 6 one_protocol).0 ≡ ok tt)
          × (find "actions" (register "actions" 6 one_protocol).1 ≡ some 6))
    × ((j : String)
        → "actions" ≢ j
        → find j (register "actions" 6 one_protocol).1 ≡ find j one_protocol)
find-register_example = find-register "actions" 6 one_protocol
