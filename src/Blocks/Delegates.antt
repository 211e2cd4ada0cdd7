-- ===== src/Blocks/Delegates.antt =====
-- updateDelegates of indexprotocol/blocks/protocol.go: at the start of an epoch, who is to produce its
-- blocks, and the names of the operators. Both stay in memory when the block's transaction is rolled
-- back.
use iotex_analytics.Common.{
  ℕ, Option, none, some, List, [], ◌∷◌, String, of_bytes, bytes, Assoc, string_eq, insert, Go, ok,
  err, bind_go, wrapped, message, exit, sub64, leb, ◌==◌, if◌then◌else◌,
}
use iotex_analytics.Epoch.{EpochCtx, get_epoch_height, fairbank_effective_height}
use iotex_analytics.Store.{Run, pure, lift, ◌>>=◌, set_memory, for_each, wrap_error}
use iotex_analytics.DelegateName.{encode_delegate_name}
use iotex_analytics.Paging.{u32, Candidate, get_all_staking_candidates}

-- The fields of Protocol that change. The map is nil before it is made.
pub record Producers : Type 0 where
  pub active_block_producers : List String
  pub operator_addr_to_name : Option (Assoc String String)

-- The answers of the chain client, of the election client and of backoff.Retry. A call of ReadState
-- takes its argument, and one that is retried also the number of the attempt.
pub record Clients : Type 1 where
  pub Data : Type 0
  pub active_block_producers_by_epoch : ℕ → Go Data
  pub deserialize : Data → Go (List String)
  pub gravity_chain_start_height : ℕ → ℕ → Go Data
  pub parse_uint : Data → Go ℕ
  pub candidates_page : ℕ → ℕ → ℕ → Go (List Candidate)
  pub election_candidates : ℕ → Go (List (String × String))
  -- The value of the attempt that ended the retries.
  pub retry : ℕ → (ℕ → Go ℕ) → Go ℕ

-- GetGravityChainStartHeight of indexprotocol/protocol.go
unfoldable pub get_gravity_chain_start_height : (c : Clients) → ℕ → ℕ → Go ℕ
get_gravity_chain_start_height c attempt height =
    bind_go
      (wrapped "failed to get gravity chain start height"
        (c.gravity_chain_start_height attempt height))
      (λ d. wrapped "failed to parse gravityChainStartHeight" (c.parse_uint d))

-- One attempt: an answer of 0 is retried as an error is.
unfoldable pub gravity_attempt : (c : Clients) → ℕ → ℕ → Go ℕ
unfolding get_gravity_chain_start_height
gravity_attempt c height attempt =
    bind_go
      (wrapped "failed to parse gravityChainStartHeight"
        (get_gravity_chain_start_height c attempt height))
      (λ n.
        if n == 0
        then err (message "waiting for fetching next timestamp in election service")
        else ok n)

-- EncodeDelegateName on a text.
abbrev pub encode_name : String → Go String
unfolding encode_delegate_name
encode_name s = bind_go (encode_delegate_name (bytes s)) (λ bs. ok (of_bytes bs))

-- GetAllStakingCandidates asks for at most 2 ^ 32 pages before it starts again with the first one: a
-- loop that goes on then never ends, and nothing that follows it happens.
unfoldable pub staking_candidates : (c : Clients) → ℕ → Go (List Candidate)
unfolding get_all_staking_candidates
staking_candidates c height = elim (get_all_staking_candidates (c.candidates_page height) u32) [
  | none ↦ exit
  | some r ↦ r
]

abbrev pub add_name : String → String → Producers → Producers
add_name operator name m = record m {
  operator_addr_to_name =
      some (insert operator name (elim m.operator_addr_to_name [ none ↦ [] | some names ↦ names ]));
}

abbrev pub names_of : List (String × String) → Assoc String String → Assoc String String
names_of [] names = names
names_of ((operator, name) ∷ cs) names = names_of cs (insert operator name names)

module _ {D : Type 0} (c : Clients) where
  unfoldable pub update_active_block_producers : ℕ → Run D Producers (Unit {0})
  update_active_block_producers epoch =
      lift
        (wrapped "failed to get active block producers" (c.active_block_producers_by_epoch epoch))
      >>= λ d.
          lift (wrapped "failed to deserialize active block producers" (c.deserialize d))
          >>= λ producers. set_memory (λ m. record m { active_block_producers = producers })

  -- A name that cannot be encoded ends the loop, and the map stays with the names before it.
  unfoldable pub update_staking_delegates : ℕ → Run D Producers (Unit {0})
  unfolding staking_candidates
  update_staking_delegates height =
      lift (wrapped "get candidate error" (staking_candidates c height)) >>= λ candidates.
      set_memory (λ m. record m { operator_addr_to_name = some [] }) >>= λ _.
      for_each
        (λ (k : Candidate).
          lift (wrapped "encode delegate name error" (encode_name k.name)) >>= λ name.
          set_memory (add_name k.operator_address name))
        candidates

  -- The delegates that the election service has.
  unfoldable pub update_gravity_delegates : EpochCtx → ℕ → ℕ → Run D Producers (Unit {0})
  unfolding get_epoch_height gravity_attempt
  update_gravity_delegates ctx gravity_start epoch =
      (if epoch == 1
        then pure gravity_start
        else lift (get_epoch_height ctx (sub64 epoch 1)) >>= λ previous. lift (
            wrapped "failed to get gravity chain start height by backoff"
              (c.retry 1000 (gravity_attempt c previous))))
      >>= λ height.
          lift (
            wrapped "failed to get candidates from election service" (c.election_candidates height))
          >>= λ candidates.
              set_memory (λ m. record m { operator_addr_to_name = some (names_of candidates []) })

  unfoldable pub update_delegates : EpochCtx → ℕ → ℕ → ℕ → Run D Producers (Unit {0})
  unfolding get_epoch_height fairbank_effective_height update_active_block_producers
      update_staking_delegates update_gravity_delegates
  update_delegates ctx gravity_start height epoch =
      wrap_error "update active block producers" (update_active_block_producers epoch) >>= λ _.
      lift (get_epoch_height ctx (sub64 epoch 1)) >>= λ previous.
      (if leb (fairbank_effective_height ctx) height
        then update_staking_delegates previous
        else update_gravity_delegates ctx gravity_start epoch)
