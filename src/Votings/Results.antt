-- ===== src/Votings/Results.antt =====
-- updateStakingResult of indexprotocol/votings/stakingprotocol.go: the rows of the voting results.
use iotex_analytics.Common.{
  ℕ, ◌≡◌, ◌∙◌, ap, sym, refl, List, [], ◌∷◌, ◌++◌, String, ok, err, abort, message, wrapped,
  wrapped-eq-ok, string_eq, lookup, append_assoc, append_nil, bind_go, bind_go-eq-ok, ◌==◌, sub64,
  leb, ltb, str_eq, arith,
}
use iotex_analytics.Epoch.{EpochCtx, fairbank_effective_height}
use iotex_analytics.Store.{World, Run, lift, ◌>>=◌, exec, query, for_each}
use iotex_analytics.Store.Steps.{>>=-ok, >>=-then, exec-ok}
use iotex_analytics.Store.Keeps.{Keeps, query-Keeps, wrap_error-Keeps, >>=-Keeps, if-Keeps}
use iotex_analytics.Paging.{Candidate}
use iotex_analytics.Blocks.Delegates.{encode_name}
use iotex_analytics.Votings.Tables.{VotingResult, Votings}
use iotex_analytics.Votings.Profiles.{
  Profile, Portions, get_last_epoch_portion, get_all_staking_delegate_reward_portions,
}
use iotex_analytics.Votings.{
  Services, voting_result_of, insert_voting_result, update_staking_result,
}

-- The row of a candidate in an epoch.
pub record Describes (epoch : ℕ) (c : Candidate) (r : VotingResult) : Type 0 where
  pub epoch_number : r.epoch_number ≡ epoch
  pub delegate_name : encode_name c.name ≡ ok r.delegate_name
  pub operator_address : r.operator_address ≡ c.operator_address
  pub reward_address : r.reward_address ≡ c.reward_address
  pub votes : r.total_weighted_votes ≡ c.total_weighted_votes
  pub self_staking : r.self_staking ≡ c.self_staking_tokens

-- One row for each candidate, in order.
abbrev pub AreRows : ℕ → List Candidate → List VotingResult → Type 0
AreRows epoch [] [] = Unit
AreRows epoch [] (r ∷ rs) = ⊥
AreRows epoch (c ∷ cs) [] = ⊥
AreRows epoch (c ∷ cs) (r ∷ rs) = Describes epoch c r × AreRows epoch cs rs

module _ {O : Type 0} (p : Profile) where
  -- The portions are only read.
  module _ (P : Votings O → Type 0) where
    last_portion-Keeps :
        (epoch : ℕ) → Keeps P (get_last_epoch_portion p {O = O} {S = Unit {0}} epoch)
    unfolding get_last_epoch_portion
    last_portion-Keeps epoch =
        >>=-Keeps P _ _ (wrap_error-Keeps P _ _ (query-Keeps P _))
          (λ _. >>=-Keeps P _ _ (wrap_error-Keeps P _ _ (query-Keeps P _)) (λ rows w u. u))

    portions-Keeps :
        (ctx : EpochCtx) (height epoch : ℕ)
        → Keeps P
            (get_all_staking_delegate_reward_portions p {O = O} {S = Unit {0}} ctx height epoch)
    unfolding get_all_staking_delegate_reward_portions
    portions-Keeps ctx height epoch =
        >>=-Keeps P _ _ (λ w u. u)
          (λ _.
            if-Keeps P (height == fairbank_effective_height ctx) _ _
              (if-Keeps P (str_eq p.portion_contract "") _ _ (λ w u. u)
                (if-Keeps P (leb height p.deploy_height) _ _ (λ w u. u) (λ w u. u)))
              (>>=-Keeps P _ _ (wrap_error-Keeps P _ _ (last_portion-Keeps (sub64 epoch 1)))
                (λ last.
                  >>=-Keeps P _ _ (λ w u. u)
                    (λ start.
                      if-Keeps P (ltb height start) _ _ (λ w u. u)
                        (>>=-Keeps P _ _ (λ w u. u) (λ new w u. u))))))

  insert_voting_result_ok :
      (row : VotingResult) (db db' : Votings O)
      → insert_voting_result row db ≡ ok db'
      → db'.voting_result ≡ db.voting_result ++ row ∷ []
  unfolding insert_voting_result
  insert_voting_result_ok row db db' e = ground (arith, e)

  module _ (s : Services O p.Percent) (epoch : ℕ) (portions : Portions p.Percent) where
    -- The row of a candidate whose address and name were found.
    abbrev row_of : Candidate → String → String → VotingResult
    row_of c address name = record {
      epoch_number = epoch;
      delegate_name = name;
      operator_address = c.operator_address;
      reward_address = c.reward_address;
      total_weighted_votes = c.total_weighted_votes;
      self_staking = c.self_staking_tokens;
      block_reward_percentage = s.print (lookup address portions.block_reward);
      epoch_reward_percentage = s.print (lookup address portions.epoch_reward);
      foundation_bonus_percentage = s.print (lookup address portions.foundation_bonus);
      staking_address = address;
    }

    voting_result_of-Describes :
        (c : Candidate) (r : VotingResult)
        → voting_result_of p s portions epoch c ≡ ok r
        → Describes epoch c r
    unfolding voting_result_of
    voting_result_of-Describes c r e =
        let row : String → String → VotingResult = row_of c in
        let (address, _, rest) =
          bind_go-eq-ok
            (wrapped "failed to convert IoTeX address to ETH address"
              (s.io_addr_to_evm_addr c.owner_address))
            (λ address.
              bind_go (wrapped "encode delegate name error" (encode_name c.name))
                (λ name. ok (row address name)))
            e in
        let (name, named, last) =
          bind_go-eq-ok (wrapped "encode delegate name error" (encode_name c.name))
            (λ name. ok (row address name)) rest in
        let made : row address name ≡ r = ground (arith, last) in
        let described : Describes epoch c (row address name) = record {
          epoch_number = refl;
          delegate_name = wrapped-eq-ok "encode delegate name error" (encode_name c.name) named;
          operator_address = refl;
          reward_address = refl;
          votes = refl;
          self_staking = refl;
        } in
        rw (← made) described

    abbrev write_result : Candidate → Run (Votings O) (Unit {0}) (Unit {0})
    write_result c =
        lift (voting_result_of p s portions epoch c) >>= λ row. exec (insert_voting_result row)

    write_results_ok :
        (cs : List Candidate) (w : World (Votings O) (Unit {0}))
        → (for_each write_result cs w).0 ≡ ok tt
        → (rows : List VotingResult) × AreRows epoch cs rows
          × ((for_each write_result cs w).1.db.voting_result ≡ w.db.voting_result ++ rows)
    unfolding for_each
    write_results_ok [] w h = ([], tt, sym (append_nil w.db.voting_result))
    write_results_ok (c ∷ cs) w h =
        let (_, first, rest) = >>=-ok (write_result c) (λ _. for_each write_result cs) w h in
        let w₁ = (write_result c w).1 in
        let (row, made, inserted) =
          >>=-ok (lift (voting_result_of p s portions epoch c))
            (λ row. exec (insert_voting_result row)) w first in
        let ran =
          >>=-then (lift (voting_result_of p s portions epoch c))
            (λ row. exec (insert_voting_result row)) w row made in
        let added : w₁.db.voting_result ≡ w.db.voting_result ++ row ∷ [] =
          ap (λ q. q.1.db.voting_result) ran
          ∙ insert_voting_result_ok row w.db (exec (insert_voting_result row) w).1.db
              (exec-ok (insert_voting_result row) w inserted) in
        let (rows, are, more) = write_results_ok cs w₁ rest in
        (
          row ∷ rows,
          (voting_result_of-Describes c row made, are),
          ap (λ q. q.1.db.voting_result)
                (>>=-then (write_result c) (λ _. for_each write_result cs) w tt first)
              ∙ more
              ∙ ap (λ l. l ++ rows) added
              ∙ append_assoc w.db.voting_result (row ∷ []) rows,
        )

-- When updateStakingResult returns nil, the voting results are as they were, and behind them one row for
-- each candidate, in order, of the epoch, with the encoded name of the candidate, its operator and reward
-- address, its votes and its self-stake.
pub update_staking_result-voting_result :
    {O : Type 0} (p : Profile) (s : Services O p.Percent) (ctx : EpochCtx)
    (candidates : List Candidate) (epoch height : ℕ) (w : World (Votings O) (Unit {0}))
    → (update_staking_result p s ctx candidates epoch height w).0 ≡ ok tt
    → (rows : List VotingResult) × AreRows epoch candidates rows
      × ((update_staking_result p s ctx candidates epoch height w).1.db.voting_result
          ≡ w.db.voting_result ++ rows)
unfolding update_staking_result
update_staking_result-voting_result {O} p s ctx candidates epoch height w h =
    let P : Votings O → Type 0 = λ db. db.voting_result ≡ w.db.voting_result in
    let ready : Run (Votings O) (Unit {0}) (Unit {0}) = query (λ (db : Votings O). tt {0}) in
    let found : Run (Votings O) (Unit {0}) (Portions p.Percent) = λ w.
      let (r, w') = get_all_staking_delegate_reward_portions p ctx height epoch w in
      (
        elim r [
          | ok m ↦ ok m
          | err e ↦ err (message "get delegate reward portions")
          | abort x ↦ abort x
        ],
        w',
      ) in
    let write : Portions p.Percent → Run (Votings O) (Unit {0}) (Unit {0}) =
      λ portions. for_each (write_result p s epoch portions) candidates in
    let (_, read, rest) = >>=-ok ready (λ _. found >>= write) w h in
    let w₁ = (ready w).1 in
    let same₁ : P w₁.db = query-Keeps P (λ db. tt {0}) w refl in
    let (portions, got, written) = >>=-ok found write w₁ rest in
    let w₂ = (found w₁).1 in
    let same₂ : P w₂.db = portions-Keeps p P ctx height epoch w₁ same₁ in
    let (rows, are, more) = write_results_ok p s epoch portions candidates w₂ written in
    (
      rows,
      are,
      ap (λ q. q.1.db.voting_result)
            (>>=-then ready (λ _. found >>= write) w tt read ∙ >>=-then found write w₁ portions got)
          ∙ more
          ∙ ap (λ l. l ++ rows) same₂,
    )
