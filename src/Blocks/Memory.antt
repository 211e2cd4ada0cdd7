-- ===== src/Blocks/Memory.antt =====
-- What of indexprotocol/blocks/protocol.go leaves the table block_history alone.
use iotex_analytics.Common.{ℕ, zero, suc, ◌≡◌, refl, List, ok, ◌==◌, arith}
use iotex_analytics.Epoch.{EpochCtx}
use iotex_analytics.Store.{exec}
use iotex_analytics.Store.Keeps.{
  Keeps, set_memory-Keeps, wrap_error-Keeps, >>=-Keeps, if-Keeps, for_each-Keeps, exec-Keeps,
}
use iotex_analytics.Blocks.Delegates.{
  Producers, Clients, update_active_block_producers, update_staking_delegates,
  update_gravity_delegates, update_delegates,
}
use iotex_analytics.Blocks.{
  BlockHistory, Blocks, insert_expected_producer, insert_producer, insert_productivity,
  rebuild_productivity_table,
}

-- updateDelegates does not touch the database.
module _ {D : Type 0} (P : D → Type 0) (c : Clients) where
  update_active_block_producers-Keeps :
      (epoch : ℕ) → Keeps P (update_active_block_producers {D = D} c epoch)
  unfolding update_active_block_producers
  update_active_block_producers-Keeps epoch =
      >>=-Keeps P _ _ (λ w p. p)
        (λ d. >>=-Keeps P _ _ (λ w p. p) (λ producers. set_memory-Keeps P _))

  update_staking_delegates-Keeps :
      (height : ℕ) → Keeps P (update_staking_delegates {D = D} c height)
  unfolding update_staking_delegates
  update_staking_delegates-Keeps height =
      >>=-Keeps P _ _ (λ w p. p)
        (λ candidates. >>=-Keeps P _ _ (set_memory-Keeps P _) (λ _.
          for_each-Keeps P _ candidates
            (λ k. >>=-Keeps P _ _ (λ w p. p) (λ name. set_memory-Keeps P _))))

  update_gravity_delegates-Keeps :
      (ctx : EpochCtx) (gravity_start epoch : ℕ)
      → Keeps P (update_gravity_delegates {D = D} c ctx gravity_start epoch)
  unfolding update_gravity_delegates
  update_gravity_delegates-Keeps ctx gravity_start epoch =
      >>=-Keeps P _ _
        (if-Keeps P (epoch == 1) _ _ (λ w p. p)
          (>>=-Keeps P _ _ (λ w p. p) (λ previous. (λ w p. p))))
        (λ height. >>=-Keeps P _ _ (λ w p. p) (λ candidates. set_memory-Keeps P _))

  pub update_delegates-Keeps :
      (ctx : EpochCtx) (gravity_start height epoch : ℕ)
      → Keeps P (update_delegates {D = D} c ctx gravity_start height epoch)
  unfolding update_delegates
  update_delegates-Keeps ctx gravity_start height epoch =
      >>=-Keeps P _ _ (wrap_error-Keeps P _ _ (update_active_block_producers-Keeps epoch)) (λ _.
        >>=-Keeps P _ _ (λ w p. p)
          (λ previous.
            if-Keeps P _ _ _ (update_staking_delegates-Keeps previous)
              (update_gravity_delegates-Keeps ctx gravity_start epoch)))

module _ (Q : List BlockHistory → Type 0) where
  abbrev P : Blocks → Type 0
  P db = Q db.block_history

  -- A statement that writes another table.
  other_table-Keeps :
      (f : Blocks → Blocks)
      → ((db : Blocks) → (f db).block_history ≡ db.block_history)
      → Keeps P (exec {S = Producers} (λ db. ok (f db)))
  other_table-Keeps f same =
      exec-Keeps P (λ db. ok (f db))
        (λ db db' q e.
          let written : f db ≡ db' = ground (arith, e) in rw (← written) (rw (same db) q))

  pub rebuild_productivity_table-Keeps : (epoch : ℕ) → Keeps P (rebuild_productivity_table epoch)
  unfolding rebuild_productivity_table insert_expected_producer insert_producer insert_productivity
  rebuild_productivity_table-Keeps zero = λ w p. p
  rebuild_productivity_table-Keeps (suc n) =
      >>=-Keeps P _ _ (other_table-Keeps (insert_expected_producer (suc n)) (λ db. refl)) (λ _.
        >>=-Keeps P _ _ (other_table-Keeps (insert_producer (suc n)) (λ db. refl))
          (λ _. other_table-Keeps (insert_productivity (suc n)) (λ db. refl)))
