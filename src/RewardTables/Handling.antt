-- ===== src/RewardTables/Handling.antt =====
-- HandleBlock of indexprotocol/rewards/protocol.go, with the names of the reward addresses, which it
-- keeps in memory: a map that is nil before it is made.
use iotex_analytics.Common.{
  ℕ, Bool, true, false, ◌&&◌, ◌||◌, Option, none, some, List, [], ◌∷◌, ◌++◌, String, Assoc, any,
  string_eq, lookup_or, insert, Go, wrapped, sub64, leb, ◌==◌, str_eq, if◌then◌else◌,
}
use iotex_analytics.Epoch.{EpochCtx, get_epoch_number, get_epoch_height, fairbank_effective_height}
use iotex_analytics.Store.{Run, pure, lift, ◌>>=◌, get_memory, set_memory, for_each, wrap_error}
use iotex_analytics.Paging.{Candidate}
use iotex_analytics.Blocks.Delegates.{
  Clients, encode_name, get_gravity_chain_start_height, staking_candidates,
}
use iotex_analytics.Rewards.{Rewarding, Amounts}
use iotex_analytics.RewardTables.{
  RewardLog, RewardDb, get_reward_info_from_receipt, update_reward_history,
  rebuild_account_reward_table,
}

abbrev pub Names : Type 0
Names = Option (Assoc String (List String))

-- A nil map is read as an empty one.
abbrev pub known : Names → Assoc String (List String)
known none = []
known (some names) = names

-- `m[a] = append(m[a], name)`
abbrev pub append_name : String → String → Names → Names
append_name address name m =
    some (insert address (lookup_or [] address (known m) ++ name ∷ []) (known m))

abbrev pub append_names : List (String × String) → Names → Names
append_names [] m = m
append_names ((address, name) ∷ cs) m = append_names cs (append_name address name m)

-- A receipt: the hash of its action, and what its logs are read as.
pub record RewardReceipt : Type 0 where
  pub action_hash : String
  pub logs : List (Go RewardLog)

-- A block, with the hashes of the actions that grant a reward.
pub record RewardBlock : Type 0 where
  pub height : ℕ
  pub grants : List String
  pub receipts : List RewardReceipt

-- A receipt without a reward leaves no row.
unfoldable pub record_rewards : ℕ → String → Assoc String Amounts → Run RewardDb Names (Unit {0})
unfolding update_reward_history
record_rewards epoch hash [] = pure tt
record_rewards epoch hash (reward ∷ more) = get_memory >>= λ m.
    wrap_error "failed to update epoch number and reward address to reward history table"
      (update_reward_history epoch hash (known m) (reward ∷ more))

-- A receipt of another action is passed over.
unfoldable pub record_receipt : List String → ℕ → RewardReceipt → Run RewardDb Names (Unit {0})
unfolding get_reward_info_from_receipt record_rewards
record_receipt grants epoch receipt =
    if any (str_eq receipt.action_hash) grants
    then (lift (
          wrapped "failed to get reward info from receipt"
            (get_reward_info_from_receipt receipt.logs))
        >>= record_rewards epoch receipt.action_hash)
    else pure tt

abbrev pub is_nil : Names → Bool
is_nil none = true
is_nil (some _) = false

-- `elected` is the answer of the election client at a height: the reward addresses and the names.
module _ (c : Clients) (elected : ℕ → Go (List (String × String))) where
  -- A name that cannot be encoded ends the loop, and the map stays with the names before it.
  unfoldable pub update_staking_candidate_reward_address : ℕ → Run RewardDb Names (Unit {0})
  unfolding staking_candidates
  update_staking_candidate_reward_address height =
      lift (wrapped "get candidate error" (staking_candidates c height)) >>= λ candidates.
      set_memory (λ (m : Names). some []) >>= λ _.
      for_each
        (λ (k : Candidate).
          lift (wrapped "encode delegate name error" (encode_name k.name)) >>= λ name.
          set_memory (append_name k.reward_address name))
        candidates

  unfoldable pub update_candidate_reward_address :
      EpochCtx → ℕ → ℕ → ℕ → Run RewardDb Names (Unit {0})
  unfolding get_epoch_height fairbank_effective_height get_gravity_chain_start_height
      update_staking_candidate_reward_address
  update_candidate_reward_address ctx gravity_start height epoch =
      if leb (fairbank_effective_height ctx) height
      then lift (get_epoch_height ctx (sub64 epoch 1)) >>= update_staking_candidate_reward_address
      else (if epoch == 1
          then pure gravity_start
          else lift (get_epoch_height ctx (sub64 epoch 1)) >>= λ previous. lift (
              wrapped "failed to get gravity height from chain service in epoch"
                (get_gravity_chain_start_height c 0 previous)))
        >>= λ start.
            lift (wrapped "failed to get candidates from election service" (elected start))
            >>= λ candidates. set_memory (λ (m : Names). append_names candidates (some []))

  unfoldable pub handle_block :
      Rewarding → EpochCtx → ℕ → String → RewardBlock → Run RewardDb Names (Unit {0})
  unfolding get_epoch_number get_epoch_height update_candidate_reward_address
      rebuild_account_reward_table record_receipt
  handle_block config ctx gravity_start scheme block =
      lift (get_epoch_number ctx block.height) >>= λ epoch.
      lift (get_epoch_height ctx epoch) >>= λ start. get_memory >>= λ m.
      (if str_eq scheme "ROLLDPOS" && (block.height == start || is_nil m)
        then wrap_error "failed to update candidates in epoch"
            (update_candidate_reward_address ctx gravity_start block.height epoch)
        else pure tt)
      >>= λ _.
          (if str_eq scheme "ROLLDPOS" && block.height == start
            then wrap_error "failed to rebuild account reward table"
                (rebuild_account_reward_table config (sub64 epoch 1))
            else pure tt)
          >>= λ _. for_each (record_receipt block.grants epoch) block.receipts
