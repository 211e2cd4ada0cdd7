-- ===== src/Registry.antt =====
-- indexprotocol/registry.go: the protocols by their IDs, in a sync.Map. Each method is one step.
pub mod Laws
use iotex_analytics.Common.{
  Option, none, some, List, [], ◌∷◌, String, Assoc, string_eq, lookup, insert, map, Go, ok, err,
  message,
}

pub record Registry (P : Type 0) : Type 0 where
  pub protocols : Assoc String P

module _ {P : Type 0} where
  -- LoadOrStore: stores only under an ID that is new.
  unfoldable pub register : String → P → Registry P → Go (Unit {0}) × Registry P
  register id p r = elim (lookup id r.protocols) [
    | some loaded ↦ (err (message "Protocol is already registered"), r)
    | none ↦ (ok tt, record { protocols = insert id p r.protocols })
  ]

  unfoldable pub force_register : String → P → Registry P → Go (Unit {0}) × Registry P
  force_register id p r = (ok tt, record { protocols = insert id p r.protocols })

  unfoldable pub find : String → Registry P → Option P
  find id r = lookup id r.protocols

  unfoldable pub all : Registry P → List P
  all r = map (λ e. e.1) r.protocols
