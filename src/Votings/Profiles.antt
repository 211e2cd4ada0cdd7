-- ===== src/Votings/Profiles.antt =====
-- indexprotocol/votings/stakingprotocol.go: the portions of the rewards that the delegates pass on, as
-- the logs of a contract and the last epoch give them. The chain client, the ABI and the float64
-- percentages are parameters.
use iotex_analytics.Common.{
  ℕ, ◌%◌, true, false, List, [], ◌∷◌, String, Assoc, keep, string_eq, insert, Go, ok, err, abort,
  message, not_exist, wrapped, bind_go, add64, sub64, u64, leb, ltb, ◌==◌, str_eq, if◌then◌else◌,
}
use iotex_analytics.Epoch.{EpochCtx, get_epoch_height, fairbank_effective_height}
use iotex_analytics.Store.{Run, pure, raise, lift, ◌>>=◌, query, wrap_error}
use iotex_analytics.Votings.Tables.{VotingResult, Votings}

pub record ProfileUpdated : Type 0 where
  pub name : String
  pub delegate : String
  pub value : ℕ

-- A log: its topics in hexadecimal, and what Unpack answers for the event ProfileUpdated.
pub record ProfileLog : Type 0 where
  pub topics : List String
  pub event : Go ProfileUpdated

pub record Profile : Type 1 where
  pub Percent : Type 0
  pub hundredth : ℕ → Percent
  pub read : String → Percent
  pub abi : Go (Unit {0})
  pub portion_contract : String
  pub deploy_height : ℕ
  pub get_logs : String → ℕ → ℕ → Go (List ProfileLog)

pub record Portions (F : Type 0) : Type 0 where
  pub block_reward : Assoc String F
  pub epoch_reward : Assoc String F
  pub foundation_bonus : Assoc String F

abbrev pub no_portions : {F : Type 0} → Portions F
no_portions = record { block_reward = []; epoch_reward = []; foundation_bonus = [] }

abbrev pub topic_profile_updated : String
topic_profile_updated = "217aa5ef0b78f028d51fd573433bdbe2daf6f8505e6a71f3af1393c8440b341b"

module _ (p : Profile) where
  open p use {Percent, hundredth, read, abi, portion_contract, deploy_height, get_logs}

  -- The value of an event is cut to 64 bits.
  unfoldable pub add_event : ProfileUpdated → Portions Percent → Portions Percent
  add_event e m =
      let portion = hundredth (e.value % u64) in
      if str_eq e.name "blockRewardPortion"
      then record m { block_reward = insert e.delegate portion m.block_reward }
      else if str_eq e.name "epochRewardPortion"
      then record m { epoch_reward = insert e.delegate portion m.epoch_reward }
      else if str_eq e.name "foundationRewardPortion"
      then record m { foundation_bonus = insert e.delegate portion m.foundation_bonus }
      else m

  -- `for _, topic := range l.Topics`. An event that cannot be unpacked is passed over.
  unfoldable pub add_topics :
      List String → Go ProfileUpdated → Portions Percent → Go (Portions Percent)
  unfolding add_event
  add_topics [] event m = ok m
  add_topics (topic ∷ topics) event m =
      let more = add_topics topics event in
      elim (str_eq topic topic_profile_updated) [
        | false ↦ more m
        | true ↦ elim event [ ok e ↦ more (add_event e m) | err x ↦ more m | abort x ↦ abort x ]
      ]

  unfoldable pub add_logs : List ProfileLog → Portions Percent → Go (Portions Percent)
  unfolding add_topics
  add_logs [] m = ok m
  add_logs (l ∷ ls) m = bind_go (add_topics l.topics l.event m) (add_logs ls)

  unfoldable pub get_log : String → ℕ → ℕ → Go (Portions Percent)
  unfolding add_logs
  get_log contract from count =
      bind_go (get_logs contract from (add64 from count)) (λ logs. add_logs logs no_portions)

  unfoldable pub add_results : List VotingResult → Portions Percent → Portions Percent
  add_results [] m = m
  add_results (r ∷ rs) m = add_results rs (record {
    block_reward = insert r.staking_address (read r.block_reward_percentage) m.block_reward;
    epoch_reward = insert r.staking_address (read r.epoch_reward_percentage) m.epoch_reward;
    foundation_bonus =
        insert r.staking_address (read r.foundation_bonus_percentage) m.foundation_bonus;
  })

  -- No row is an error.
  unfoldable pub results_portions : List VotingResult → Go (Portions Percent)
  unfolding add_results
  results_portions [] = err not_exist
  results_portions (r ∷ rs) = ok (add_results (r ∷ rs) no_portions)

  unfoldable pub get_last_epoch_portion : {O S : Type 0} → ℕ → Run (Votings O) S (Portions Percent)
  unfolding results_portions
  get_last_epoch_portion {O} epoch =
      wrap_error "failed to prepare get query" (query (λ (db : Votings O). tt {0})) >>= λ _.
      wrap_error "failed to execute get query" (
        query (λ (db : Votings O).
          keep (λ (r : VotingResult). r.epoch_number == epoch) db.voting_result))
      >>= λ rows. lift (results_portions rows)

  -- `for k, v := range new { old[k] = v }`
  abbrev pub put_all : {F : Type 0} → Assoc String F → Assoc String F → Assoc String F
  put_all [] m = m
  put_all ((k, v) ∷ new) m = put_all new (insert k v m)

  abbrev pub merged : Portions Percent → Portions Percent → Portions Percent
  merged new old = record {
    block_reward = put_all new.block_reward old.block_reward;
    epoch_reward = put_all new.epoch_reward old.epoch_reward;
    foundation_bonus = put_all new.foundation_bonus old.foundation_bonus;
  }

  -- At the Fairbank height the portions come from the logs since the contract was deployed, and later
  -- from the epoch before and the logs since its start. Where that start is above this one, the error is
  -- wrapped from nil, and is nil itself.
  unfoldable pub get_all_staking_delegate_reward_portions :
      {O S : Type 0} → EpochCtx → ℕ → ℕ → Run (Votings O) S (Portions Percent)
  unfolding get_epoch_height fairbank_effective_height get_log get_last_epoch_portion
  get_all_staking_delegate_reward_portions ctx height epoch =
      lift (wrapped "failed to get parsed delegate profile ABI interface" abi) >>= λ _.
      (if height == fairbank_effective_height ctx
        then if str_eq portion_contract ""
          then raise (message "portion contract address is empty")
          else if leb height deploy_height
          then raise (message "portion contract deploy height should less than fairbank height")
          else lift (
              wrapped "failed to get log from chain"
                (get_log portion_contract deploy_height (sub64 height deploy_height)))
        else wrap_error "failed to get last epoch portion" (get_last_epoch_portion (sub64 epoch 1))
          >>= λ last. lift (get_epoch_height ctx (sub64 epoch 1)) >>= λ start.
              (if ltb height start
                then pure last
                else lift (
                    wrapped "failed to get log from chain"
                      (get_log portion_contract start (sub64 height start)))
                  >>= λ new. pure (merged new last)))
