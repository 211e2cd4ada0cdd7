-- ===== src/Indexer/Defaults.antt =====
-- RegisterDefaultProtocols of indexservice/indexer.go. The five protocols are what the constructors
-- return.
use iotex_analytics.Common.{
  ℕ, ◌≡◌, refl, some, [], ◌∷◌, String, Go, ok, err, abort, wrapped, string_eq,
}
use iotex_analytics.Store.{World}
use iotex_analytics.Registry.{register, find}
use iotex_analytics.Indexer.{Protocol, Indexer, register_protocol}

pub record Defaults (D S B : Type 0) : Type 0 where
  pub blocks : Protocol D S B
  pub actions : Protocol D S B
  pub rewards : Protocol D S B
  pub votings : Protocol D S B
  pub accounts : Protocol D S B

module _ {D S B : Type 0} where
  -- `if err := idx.RegisterProtocol(id, p); err != nil { return errors.Wrap(err, s) }`, then the rest.
  abbrev after_register :
      String
      → String
      → Protocol D S B
      → (Indexer D S B → Go (Unit {0}) × Indexer D S B)
      → Indexer D S B
      → Go (Unit {0}) × Indexer D S B
  after_register s id p rest idx =
      let (r, idx') = register_protocol id p idx in
      elim (wrapped s r) [ ok _ ↦ rest idx' | err e ↦ (err e, idx') | abort x ↦ (abort x, idx') ]

  unfoldable pub register_default_protocols :
      Defaults D S B → Indexer D S B → Go (Unit {0}) × Indexer D S B
  unfolding register_protocol
  register_default_protocols d =
      after_register "failed to register blocks protocol" "blocks" d.blocks (
        after_register "failed to register actions protocol" "actions" d.actions (
          after_register "failed to register rewards protocol" "rewards" d.rewards (
            after_register "failed to register votings protocol" "voting" d.votings
              (register_protocol "accounts" d.accounts))))

  -- An indexer as NewIndexer makes it.
  abbrev pub new_indexer : ℕ → World D S → Indexer D S B
  new_indexer height world = record {
    registry = record { protocols = [] };
    index_protocols = [];
    last_height = height;
    world = world;
  }

  -- What RegisterDefaultProtocols makes of a new indexer.
  abbrev defaults_registered : Defaults D S B → ℕ → World D S → Go (Unit {0}) × Indexer D S B
  defaults_registered d height world = register_default_protocols d (new_indexer height world)

  -- On an indexer without protocols RegisterDefaultProtocols succeeds: blocks are handled by the
  -- blocks, actions, rewards, votings and accounts protocols, in this order, and the registry finds
  -- each of them under its ID.
  register_default_protocols-order :
      (d : Defaults D S B) (height : ℕ) (world : World D S)
      → ((defaults_registered d height world).0 ≡ ok tt)
        × ((defaults_registered d height world).1.index_protocols
            ≡ d.blocks ∷ d.actions ∷ d.rewards ∷ d.votings ∷ d.accounts ∷ [])
        × (find "blocks" (defaults_registered d height world).1.registry ≡ some d.blocks)
        × (find "actions" (defaults_registered d height world).1.registry ≡ some d.actions)
        × (find "rewards" (defaults_registered d height world).1.registry ≡ some d.rewards)
        × (find "voting" (defaults_registered d height world).1.registry ≡ some d.votings)
        × (find "accounts" (defaults_registered d height world).1.registry ≡ some d.accounts)
  unfolding register_default_protocols register_protocol register find
  register_default_protocols-order d height world = (refl, refl, refl, refl, refl, refl, refl)
