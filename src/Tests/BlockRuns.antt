-- ===== src/Tests/BlockRuns.antt =====
-- The block index on a chain of two blocks.
use iotex_analytics.Common.{
  ℕ, ◌≡◌, refl, false, none, some, List, [], ◌∷◌, Go, ok, arith, add64, sub64, mul64, div64,
}
use iotex_analytics.Epoch.{
  EpochCtx, get_epoch_number, get_epoch_height, early_epoch_number, early_epoch_height,
  fairbank_effective_height,
}
use iotex_analytics.DelegateName.{encode_delegate_name, strip_hashes}
use iotex_analytics.DelegateName.Hex.{hex_encode}
use iotex_analytics.Store.{World, pure, ◌>>=◌, get_memory, set_memory, exec, wrap_error, for_each}
use iotex_analytics.Bookkeeping.Tables.{number}
use iotex_analytics.Paging.{Candidate, all_pages, get_all_staking_candidates}
use iotex_analytics.Paging.Pages.{serves}
use iotex_analytics.Indexer.{Indexer, Chain, index_in_batch}
use iotex_analytics.Indexer.Progress.{index_in_batch-ends}
use iotex_analytics.Indexer.Batching.{raws_from}
use iotex_analytics.Blocks.Indexing.{blocks_protocol, index_in_batch-IsConsistent}
use iotex_analytics.Blocks.Delegates.{
  Producers, Clients, update_delegates, update_staking_delegates, update_active_block_producers,
  staking_candidates,
}
use iotex_analytics.Blocks.{
  transfer, execution, other_action, Block, BlockHistory, Blocks, count_actions, no_counts,
  handle_block, rebuild_productivity_table, record_block, expected_producer, producer_index,
  operator_name, update_block_history, insert_block_history, count_action, gas_consumed,
}
use iotex_analytics.Blocks.Counting.{column, count_actions-how_many}
use iotex_analytics.Blocks.Rows.{IsConsistent}
use iotex_analytics.Blocks.Recorded.{IsRecorded, handle_block-IsRecorded}
use iotex_analytics.Blocks.Production.{
  IsFresh, productivity_of, calm, rebuild_productivity_table-counts,
}

count_actions-how_many_example :
    column transfer
      (count_actions (transfer ∷ other_action 3 ∷ execution ∷ transfer ∷ []) no_counts)
    ≡ 2
count_actions-how_many_example =
    count_actions-how_many transfer (transfer ∷ other_action 3 ∷ execution ∷ transfer ∷ [])
      (omega arith)

abbrev short_epochs : EpochCtx
short_epochs = record {
  num_candidate_delegates = 2;
  num_delegates = 2;
  num_sub_epochs = 1;
  num_sub_epochs_dardanelles = 0;
  dardanelles_height = 0;
  dardanelles_on = false;
  fairbank_height = 0;
}

abbrev delegates : List Candidate
delegates =
    record {
      name = "ab";
      owner_address = "c";
      total_weighted_votes = number 9;
      self_stake_bucket_idx = 1;
      operator_address = "op1";
      reward_address = "r";
      self_staking_tokens = "5";
    }
    ∷ []

abbrev clients : Clients
clients = record {
  Data = ℕ;
  active_block_producers_by_epoch = λ n. ok n;
  deserialize = λ d. ok ("op1" ∷ "op2" ∷ []);
  gravity_chain_start_height = λ attempt h. ok h;
  parse_uint = λ d. ok d;
  candidates_page = λ h. serves delegates;
  election_candidates = λ h. ok [];
  retry = λ n op. op 0;
}

abbrev no_blocks : Blocks
no_blocks = record {
  block_history = [];
  expected_producer_history = [];
  producer_history = [];
  productivity_history = [];
}

abbrev block_at : ℕ → Block
block_at h = record {
  height = h;
  hash = 1 ∷ 255 ∷ [];
  actions = transfer ∷ [];
  receipts = 10 ∷ 20 ∷ [];
  producer_address = "op1";
  timestamp = 1000;
}

abbrev no_memory : Producers
no_memory = record { active_block_producers = []; operator_addr_to_name = none }

-- The first block starts epoch 1: the delegates are fetched, and named by their encoded names.
abbrev first_row : BlockHistory
first_row = record {
  epoch_number = 1;
  block_height = 1;
  block_hash = "01ff";
  counts = record no_counts { transfer_count = 1 };
  gas = 30;
  producer_address = "op1";
  producer_name = "000000000000000000006162";
  expected_producer_address = "op2";
  expected_producer_name = "";
  timestamp = 1000;
}

abbrev first_run : Go (Unit {0}) × World Blocks Producers
first_run = handle_block clients short_epochs 0 "ROLLDPOS" (block_at 1) (calm no_blocks no_memory)

first_run-returns : (first_run.0 ≡ ok tt) × (first_run.1.db.block_history ≡ first_row ∷ [])
unfolding handle_block record_block update_delegates update_staking_delegates
    update_active_block_producers staking_candidates get_all_staking_candidates all_pages
    rebuild_productivity_table get_epoch_number get_epoch_height early_epoch_number
    early_epoch_height fairbank_effective_height encode_delegate_name strip_hashes hex_encode
    expected_producer producer_index operator_name update_block_history insert_block_history
    count_actions count_action gas_consumed ◌>>=◌ get_memory set_memory exec wrap_error for_each
    add64 sub64 mul64 div64
first_run-returns = (refl, refl)

handle_block-IsRecorded_example :
    IsRecorded short_epochs (block_at 1) [] first_run.1.db.block_history
handle_block-IsRecorded_example =
    handle_block-IsRecorded clients short_epochs 0 "ROLLDPOS" (block_at 1)
      (calm no_blocks no_memory) first_run-returns.0

-- The delegates of epoch 1 after it, with one block that "op1" produced and nobody else expected.
abbrev recorded : Blocks
recorded = record no_blocks { block_history = first_row ∷ [] }

recorded-IsFresh : IsFresh 1 recorded
recorded-IsFresh = record { expected = refl; produced = refl; productivity = refl }

rebuild_productivity_table-counts_example :
    ((rebuild_productivity_table 1 (calm recorded no_memory)).0 ≡ ok tt)
    × (productivity_of (rebuild_productivity_table 1 (calm recorded no_memory)).1.db 1 ""
        ≡ some (record { production = 0; expected_production = 1 }))
rebuild_productivity_table-counts_example =
    rebuild_productivity_table-counts 0 recorded no_memory "" recorded-IsFresh

abbrev two_blocks : Chain Block
two_blocks = record {
  Raw = ℕ;
  get_raw_blocks = λ s n. ok (raws_from (λ h. h) s n);
  convert = λ h. ok (block_at h);
  height = λ b. b.height;
}

abbrev block_indexer : Indexer Blocks Producers Block
block_indexer = record {
  registry = record { protocols = [] };
  index_protocols = blocks_protocol (pure tt) clients short_epochs 0 "ROLLDPOS" ∷ [];
  last_height = 0;
  world = calm no_blocks no_memory;
}

-- Both blocks are indexed.
abbrev two_indexed :
    (r : Go (Unit {0}) × Indexer Blocks Producers Block) × (index_in_batch two_blocks 5 2
        block_indexer
      ≡ some r)
two_indexed = index_in_batch-ends two_blocks 5 2 block_indexer (omega arith) (omega arith)

index_in_batch-IsConsistent_example :
    IsConsistent short_epochs two_indexed.0.1.world.db.block_history
index_in_batch-IsConsistent_example =
    index_in_batch-IsConsistent (pure tt) clients short_epochs 0 "ROLLDPOS" two_blocks 5 2
      block_indexer two_indexed.0.0 two_indexed.0.1 refl (record { distinct = tt; dated = tt })
      two_indexed.1
