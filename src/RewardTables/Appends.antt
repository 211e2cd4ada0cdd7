-- ===== src/RewardTables/Appends.antt =====
-- What HandleBlock of indexprotocol/rewards/protocol.go leaves of the rows that are there.
use iotex_analytics.Common.{
  append_assoc, append_nil, ℕ, zero, suc, ◌≡◌, ◌∙◌, ap, sym, refl, ◌&&◌, ◌||◌, List, [], ◌∷◌, ◌++◌,
  String, Assoc, string_eq, any, Go, ok, sub64, leb, ◌==◌, str_eq, arith,
}
use iotex_analytics.Epoch.{EpochCtx, fairbank_effective_height}
use iotex_analytics.Store.{World, pure, ◌>>=◌, exec}
use iotex_analytics.Store.Keeps.{
  Keeps, query-Keeps, get_memory-Keeps, set_memory-Keeps, wrap_error-Keeps, >>=-Keeps, if-Keeps,
  for_each-Keeps, exec-Keeps,
}
use iotex_analytics.Blocks.Delegates.{Clients}
use iotex_analytics.Rewards.{Rewarding, Amounts}
use iotex_analytics.RewardTables.{
  RewardHistory, RewardDb, VotingInfo, history_rows, insert_account_reward, get_voting_info,
  reward_rows, rebuild_account_reward_table, update_reward_history,
}
use iotex_analytics.RewardTables.Reads.{get_voting_info-Keeps, reward_rows-Keeps}
use iotex_analytics.RewardTables.Handling.{
  Names, RewardReceipt, RewardBlock, known, is_nil, update_staking_candidate_reward_address,
  update_candidate_reward_address, record_rewards, record_receipt, handle_block,
}

-- The history goes on where it was, and the two tables of other protocols are as they were.
pub record Extends (before after : RewardDb) : Type 0 where
  pub new_rows : List RewardHistory
  pub history : after.reward_history ≡ before.reward_history ++ new_rows
  pub voting_result : after.voting_result ≡ before.voting_result
  pub block_history : after.block_history ≡ before.block_history

module _ (before : RewardDb) where
  abbrev P : RewardDb → Type 0
  P db = Extends before db

  update_reward_history-Keeps :
      (epoch : ℕ) (hash : String) (names : Assoc String (List String))
      (rewards : Assoc String Amounts)
      → Keeps P (update_reward_history {S = Names} epoch hash names rewards)
  unfolding update_reward_history
  update_reward_history-Keeps epoch hash names rewards = exec-Keeps P _ (λ db db' u e.
      let rows = history_rows epoch hash names rewards in
      let written : record db { reward_history = db.reward_history ++ rows } ≡ db' =
        ground (arith, e) in
      let kept : Extends before (record db { reward_history = db.reward_history ++ rows }) =
        record {
          new_rows = u.new_rows ++ rows;
          history =
              ap (λ l. l ++ rows) u.history ∙ append_assoc before.reward_history u.new_rows rows;
          voting_result = u.voting_result;
          block_history = u.block_history;
        } in
      rw (← written) kept)

  insert_account_reward-Extends :
      (epoch : ℕ) (rows : Assoc String Amounts) (db db' : RewardDb)
      → Extends before db
      → insert_account_reward epoch rows db ≡ ok db'
      → Extends before db'
  unfolding insert_account_reward
  insert_account_reward-Extends epoch [] db db' u e = absurd (ground (arith, e))
  insert_account_reward-Extends epoch (row ∷ rows) db db' u e = record {
    new_rows = u.new_rows;
    history =
        let same : db'.reward_history ≡ db.reward_history = ground (arith, e) in same ∙ u.history;
    voting_result =
        let same : db'.voting_result ≡ db.voting_result = ground (arith, e) in
        same ∙ u.voting_result;
    block_history =
        let same : db'.block_history ≡ db.block_history = ground (arith, e) in
        same ∙ u.block_history;
  }

  rebuilt-Keeps :
      (config : Rewarding) (epoch : ℕ) (info : VotingInfo) (records : Assoc String Amounts)
      → Keeps P (elim records [
        | [] ↦ pure {S = Names} tt
        | record_ ∷ more ↦ reward_rows config epoch info (record_ ∷ more) >>= λ rows.
            exec (insert_account_reward epoch rows)
      ])
  rebuilt-Keeps config epoch info [] = λ w u. u
  rebuilt-Keeps config epoch info (record_ ∷ more) =
      >>=-Keeps P _ _ (reward_rows-Keeps P config epoch info (record_ ∷ more))
        (λ rows. exec-Keeps P _ (insert_account_reward-Extends epoch rows))

  rebuild-Keeps :
      (config : Rewarding) (epoch : ℕ)
      → Keeps P (rebuild_account_reward_table {S = Names} config epoch)
  unfolding rebuild_account_reward_table get_voting_info
  rebuild-Keeps config zero = λ w u. u
  rebuild-Keeps config (suc n) =
      >>=-Keeps P _ _ (wrap_error-Keeps P _ _ (get_voting_info-Keeps P (suc n))) (λ info.
        >>=-Keeps P _ _ (wrap_error-Keeps P _ _ (query-Keeps P _))
          (λ records. rebuilt-Keeps config (suc n) info records))

  record_rewards-Keeps :
      (epoch : ℕ) (hash : String) (rewards : Assoc String Amounts)
      → Keeps P (record_rewards epoch hash rewards)
  unfolding record_rewards
  record_rewards-Keeps epoch hash [] = λ w u. u
  record_rewards-Keeps epoch hash (reward ∷ more) = >>=-Keeps P _ _ (get_memory-Keeps P) (λ m.
      wrap_error-Keeps P _ _ (update_reward_history-Keeps epoch hash (known m) (reward ∷ more)))

  record_receipt-Keeps :
      (grants : List String) (epoch : ℕ) (receipt : RewardReceipt)
      → Keeps P (record_receipt grants epoch receipt)
  unfolding record_receipt
  record_receipt-Keeps grants epoch receipt =
      if-Keeps P (any (str_eq receipt.action_hash) grants) _ _
        (>>=-Keeps P _ _ (λ w u. u) (record_rewards-Keeps epoch receipt.action_hash)) (λ w u. u)

  module _ (c : Clients) (elected : ℕ → Go (List (String × String))) where
    staking-Keeps :
        (height : ℕ) → Keeps P (update_staking_candidate_reward_address c elected height)
    unfolding update_staking_candidate_reward_address
    staking-Keeps height =
        >>=-Keeps P _ _ (λ w u. u)
          (λ candidates. >>=-Keeps P _ _ (set_memory-Keeps P _) (λ _.
            for_each-Keeps P _ candidates
              (λ k. >>=-Keeps P _ _ (λ w u. u) (λ name. set_memory-Keeps P _))))

    candidates-Keeps :
        (ctx : EpochCtx) (gravity_start height epoch : ℕ)
        → Keeps P (update_candidate_reward_address c elected ctx gravity_start height epoch)
    unfolding update_candidate_reward_address
    candidates-Keeps ctx gravity_start height epoch =
        if-Keeps P (leb (fairbank_effective_height ctx) height) _ _
          (>>=-Keeps P _ _ (λ w u. u) staking-Keeps)
          (>>=-Keeps P _ _
            (if-Keeps P (epoch == 1) _ _ (λ w u. u)
              (>>=-Keeps P _ _ (λ w u. u) (λ previous w u. u)))
            (λ start. >>=-Keeps P _ _ (λ w u. u) (λ candidates. set_memory-Keeps P _)))

    handle_block-Keeps :
        (config : Rewarding) (ctx : EpochCtx) (gravity_start : ℕ) (scheme : String)
        (block : RewardBlock)
        → Keeps P (handle_block c elected config ctx gravity_start scheme block)
    unfolding handle_block
    handle_block-Keeps config ctx gravity_start scheme block =
        >>=-Keeps P _ _ (λ w u. u)
          (λ epoch.
            >>=-Keeps P _ _ (λ w u. u)
              (λ start. >>=-Keeps P _ _ (get_memory-Keeps P) (λ m.
                >>=-Keeps P _ _
                  (if-Keeps P (str_eq scheme "ROLLDPOS" && (block.height == start || is_nil m)) _ _
                    (wrap_error-Keeps P _ _ (candidates-Keeps ctx gravity_start block.height epoch))
                    (λ w u. u))
                  (λ _.
                    >>=-Keeps P _ _
                      (if-Keeps P (str_eq scheme "ROLLDPOS" && block.height == start) _ _
                        (wrap_error-Keeps P _ _ (rebuild-Keeps config (sub64 epoch 1))) (λ w u. u))
                      (λ _.
                        for_each-Keeps P _ block.receipts
                          (record_receipt-Keeps block.grants epoch))))))

-- However HandleBlock of the reward index ends, whatever the clients answer and whichever calls of the
-- database fail, the rows of the reward history are those that were there, in their order, and then
-- new ones, and the voting results and the block history are as they were.
pub handle_block-Extends :
    (c : Clients) (elected : ℕ → Go (List (String × String))) (config : Rewarding) (ctx : EpochCtx)
    (gravity_start : ℕ) (scheme : String) (block : RewardBlock) (w : World RewardDb Names)
    → Extends w.db (handle_block c elected config ctx gravity_start scheme block w).1.db
handle_block-Extends c elected config ctx gravity_start scheme block w =
    handle_block-Keeps w.db c elected config ctx gravity_start scheme block w (record {
      new_rows = [];
      history = sym (append_nil w.db.reward_history);
      voting_result = refl;
      block_history = refl;
    })
