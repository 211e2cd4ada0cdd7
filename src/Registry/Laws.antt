-- ===== src/Registry/Laws.antt =====
-- What a registry promises of its IDs.
use iotex_analytics.Common.{
  ◌≡◌, ◌≢◌, inl, inr, none, some, String, string_eq, lookup, lookup-insert_self, lookup-insert_ne,
  Option-cases, ok, err, message, arith,
}
use iotex_analytics.Registry.{Registry, register, force_register, find}

module _ {P : Type 0} where
  -- Register is refused exactly when the ID is taken, and then changes nothing; else Find gives the
  -- protocol under its ID. Every other ID is found as before.
  pub find-register :
      (id : String) (p : P) (r : Registry P)
      → ((q : P)
          → find id r ≡ some q
          → ((register id p r).0 ≡ err (message "Protocol is already registered"))
            × ((register id p r).1 ≡ r))
        × (find id r ≡ none
            → ((register id p r).0 ≡ ok tt) × (find id (register id p r).1 ≡ some p))
        × ((j : String) → id ≢ j → find j (register id p r).1 ≡ find j r)
  unfolding register find
  find-register id p r = (
    λ q h. ground (arith, h),
    λ h. ground (arith, h, lookup-insert_self id p r.protocols),
    λ j ne. elim (Option-cases (lookup id r.protocols)) [
      | inl new ↦ ground (arith, new, lookup-insert_ne id j p r.protocols ne)
      | inr (q, taken) ↦ ground (arith, taken)
    ],
  )

  -- ForceRegister always stores: Find gives the protocol under its ID, and any other as before.
  pub find-force_register :
      (id : String) (p : P) (r : Registry P)
      → (find id (force_register id p r).1 ≡ some p)
        × ((j : String) → id ≢ j → find j (force_register id p r).1 ≡ find j r)
  unfolding force_register find
  find-force_register id p r =
      (lookup-insert_self id p r.protocols, λ j ne. lookup-insert_ne id j p r.protocols ne)
