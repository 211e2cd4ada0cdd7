-- ===== src/Votings.antt =====
-- indexprotocol/votings/stakingprotocol.go: what processStaking writes at the start of an epoch: the
-- result of each candidate (updateStakingResult), the votes of each voter and their sum
-- (updateAggregateStaking). Probation, Weights and Profiles have what it computes them from. The table
-- operators, the address conversion and the print of a percentage are code outside the repository.
pub mod Probation
pub mod Weights
pub mod Tables
pub mod Profiles
pub mod Counted
pub mod Meta
pub mod Results
pub mod Filtering
use iotex_analytics.Common.{
  ℕ, ◌+◌, Bool, true, false, not, ◌&&◌, Option, none, some, List, [], ◌∷◌, ◌++◌, String, Assoc, any,
  nat_eq, string_eq, pair_eq, lookup, lookup_or, insert, length, Go, ok, err, abort, message,
  foreign, exit, wrapped, bind_go, ◌==◌, str_eq, if◌then◌else◌,
}
use iotex_analytics.Epoch.{EpochCtx}
use iotex_analytics.Store.{Run, pure, lift, ◌>>=◌, exec, query, for_each, wrap_error}
use iotex_analytics.Bookkeeping.Tables.{Text, number}
use iotex_analytics.Blocks.Delegates.{encode_name}
use iotex_analytics.Paging.{
  u32, VoteBucket, Candidate, get_all_staking_buckets, get_all_staking_candidates,
}
use Probation.{
  ProbationCandidateList, ProbationList, ProbationMap, Arithmetic, insert_probation, local_rows,
  convert_probation_list_to_local, staking_probation_list_to_map, filter_staking_candidates,
}
use Weights.{
  Weighing, Sums, self_stake_index_map, owner_address_to_name_map, is_some, add_votes,
  total_weighted,
}
use Tables.{VotingResult, AggregateVoting, VotingMeta, Votings}
use Profiles.{Profile, Portions, get_all_staking_delegate_reward_portions}

-- What the code calls: the pages of the chain client at a height, the table operators, the address of a
-- text in hexadecimal, and the print of a percentage with two decimals, 0 for one that is not known.
pub record Services (O : Type 0) (F : Type 0) : Type 0 where
  pub buckets_page : ℕ → ℕ → ℕ → Go (List VoteBucket)
  pub candidates_page : ℕ → ℕ → ℕ → Go (List Candidate)
  pub put_buckets : ℕ → List VoteBucket → O → Go O
  pub put_candidates : ℕ → List Candidate → O → Go O
  pub io_addr_to_evm_addr : String → Go String
  pub print : Option F → String

-- A loop over the pages that is still going when the pages repeat never ends.
abbrev pub ended : {A : Type 0} → Option (Go A) → Go A
ended none = exit
ended (some r) = r

abbrev pub same_result : VotingResult → VotingResult → Bool
same_result r q = r.epoch_number == q.epoch_number && str_eq r.delegate_name q.delegate_name

abbrev pub same_vote : AggregateVoting → AggregateVoting → Bool
same_vote a b =
    a.epoch_number == b.epoch_number
    && str_eq a.candidate_name b.candidate_name
    && str_eq a.voter_address b.voter_address
    && (if a.native_flag then b.native_flag else not b.native_flag)

module _ {O : Type 0} where
  -- INSERT, with the unique index (epoch_number, delegate_name).
  unfoldable pub insert_voting_result : VotingResult → Votings O → Go (Votings O)
  insert_voting_result row db =
      if any (λ r. same_result r row) db.voting_result
      then err (foreign 1062)
      else ok (record db { voting_result = db.voting_result ++ row ∷ [] })

  -- INSERT IGNORE, with the unique key (epoch_number, candidate_name, voter_address, native_flag).
  unfoldable pub insert_aggregate_voting : AggregateVoting → Votings O → Votings O
  insert_aggregate_voting row db =
      if any (λ a. same_vote a row) db.aggregate_voting
      then db
      else record db { aggregate_voting = db.aggregate_voting ++ row ∷ [] }

  -- INSERT, with the unique key epoch_number.
  unfoldable pub insert_voting_meta : VotingMeta → Votings O → Go (Votings O)
  insert_voting_meta row db =
      if any (λ (m : VotingMeta). m.epoch_number == row.epoch_number) db.voting_meta
      then err (foreign 1062)
      else ok (record db { voting_meta = db.voting_meta ++ row ∷ [] })

  unfoldable pub update_probation_list_table :
      ℕ → Option ProbationCandidateList → Run (Votings O) (Unit {0}) (Unit {0})
  unfolding insert_probation
  update_probation_list_table epoch none = pure tt
  update_probation_list_table epoch (some l) =
      for_each
        (λ (row : ProbationList). wrap_error "failed to update probation list table" (
          exec (λ (db : Votings O). ok (record db {
            probation_list =
                insert_probation (record row { epoch_number = epoch }) db.probation_list;
          }))))
        (local_rows l.intensity_rate l.probation_list)

  module _ (p : Profile) (s : Services O p.Percent) where
    -- The row of a candidate.
    unfoldable pub voting_result_of : Portions p.Percent → ℕ → Candidate → Go VotingResult
    voting_result_of portions epoch c =
        bind_go
          (wrapped "failed to convert IoTeX address to ETH address"
            (s.io_addr_to_evm_addr c.owner_address))
          (λ address. bind_go (wrapped "encode delegate name error" (encode_name c.name)) (λ name.
            ok (record {
              epoch_number = epoch;
              delegate_name = name;
              operator_address = c.operator_address;
              reward_address = c.reward_address;
              total_weighted_votes = c.total_weighted_votes;
              self_staking = c.self_staking_tokens;
              block_reward_percentage = s.print (lookup address portions.block_reward);
              epoch_reward_percentage = s.print (lookup address portions.epoch_reward);
              foundation_bonus_percentage = s.print (lookup address portions.foundation_bonus);
              staking_address = address;
            })))

    unfoldable pub update_staking_result :
        EpochCtx → List Candidate → ℕ → ℕ → Run (Votings O) (Unit {0}) (Unit {0})
    unfolding get_all_staking_delegate_reward_portions voting_result_of insert_voting_result
    update_staking_result ctx candidates epoch height = query (λ (db : Votings O). tt {0}) >>= λ _.
        (λ w.
          let (r, w') = get_all_staking_delegate_reward_portions p ctx height epoch w in
          (
            elim r [
              | ok m ↦ ok m
              | err e ↦ err (message "get delegate reward portions")
              | abort x ↦ abort x
            ],
            w',
          ))
        >>= λ portions.
            for_each
              (λ (c : Candidate).
                lift (voting_result_of portions epoch c) >>= λ row. exec (insert_voting_result row))
              candidates

    -- The row of a voter and a candidate. The votes of a candidate on probation are scaled.
    unfoldable pub aggregate_row :
        Arithmetic
        → Assoc String String
        → ProbationMap
        → ℕ
        → (String × String) × ℕ
        → Go AggregateVoting
    aggregate_row a names probation epoch ((candidate, voter), votes) =
        let scaled =
          if is_some (lookup candidate probation.1) then a.scale probation.0 votes else votes in
        elim (lookup candidate names) [
          | none ↦ err (message "candidate cannot find name through owner address")
          | some name ↦
              bind_go
                (wrapped "failed to convert IoTeX address to ETH address"
                  (s.io_addr_to_evm_addr voter))
                (λ address. ok (record {
                  epoch_number = epoch;
                  candidate_name = name;
                  voter_address = address;
                  native_flag = true;
                  aggregate_votes = scaled;
                }))
        ]

    unfoldable pub update_aggregate_staking :
        Arithmetic
        → Weighing
        → List VoteBucket
        → List Candidate
        → ℕ
        → Option ProbationCandidateList
        → Run (Votings O) (Unit {0}) (Unit {0})
    unfolding owner_address_to_name_map convert_probation_list_to_local
        staking_probation_list_to_map self_stake_index_map add_votes aggregate_row
        insert_aggregate_voting total_weighted insert_voting_meta
    update_aggregate_staking a g votes delegates epoch l =
        lift (wrapped "owner address to name map error" (owner_address_to_name_map delegates []))
        >>= λ names. lift (add_votes g names (self_stake_index_map delegates []) votes) >>= λ sums.
            query (λ (db : Votings O). tt {0}) >>= λ _.
            for_each
              (λ (entry : (String × String) × ℕ).
                lift (
                  aggregate_row a names
                    (staking_probation_list_to_map delegates (convert_probation_list_to_local l))
                    epoch entry)
                >>= λ row. exec (λ (db : Votings O). ok (insert_aggregate_voting row db)))
              sums.weighted_votes
            >>= λ _. lift (total_weighted delegates 0) >>= λ total.
                wrap_error "failed to update voting meta table" (
                  exec (
                    insert_voting_meta (record {
                      epoch_number = epoch;
                      voted_token = sums.total_voted;
                      delegate_count = length delegates;
                      total_weighted = total;
                    })))

    unfoldable pub process_staking :
        Arithmetic
        → Weighing
        → EpochCtx
        → ℕ
        → ℕ
        → ℕ
        → Option ProbationCandidateList
        → Run (Votings O) (Unit {0}) (Unit {0})
    unfolding get_all_staking_buckets get_all_staking_candidates filter_staking_candidates
        update_staking_result update_aggregate_staking
    process_staking a g ctx height previous epoch l =
        lift (
          wrapped "failed to get buckets count"
            (ended (get_all_staking_buckets (s.buckets_page previous) u32)))
        >>= λ votes.
            lift (
              wrapped "failed to get buckets count"
                (ended (get_all_staking_candidates (s.candidates_page previous) u32)))
            >>= λ candidates.
                exec (λ (db : Votings O).
                  bind_go (s.put_buckets height votes db.operators)
                    (λ o. ok (record db { operators = o })))
                >>= λ _.
                    exec (λ (db : Votings O).
                      bind_go (s.put_candidates height candidates db.operators)
                        (λ o. ok (record db { operators = o })))
                    >>= λ _.
                        lift (elim l [
                          | none ↦ ok candidates
                          | some probation ↦
                              wrapped "failed to filter candidate with probation list"
                                (filter_staking_candidates a candidates probation height)
                        ])
                        >>= λ delegates. update_staking_result ctx delegates epoch height >>= λ _.
                            update_aggregate_staking a g votes delegates epoch l
