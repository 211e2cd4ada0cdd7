-- ===== src/Tests/Batches.antt =====
-- The indexer on a chain whose blocks are their heights, and pages of a short list.
use iotex_analytics.Common.{
  keep, true, List, ℕ, ◌+◌, ◌≡◌, refl, some, [], ◌∷◌, Go, ok, panic, arith, add64, sub64,
}
use iotex_analytics.Store.{transact, for_each, finish, ◌>>=◌, wrap_error}
use iotex_analytics.Bookkeeping.Tables.{number}
use iotex_analytics.Paging.{VoteBucket, is_staked, get_all_staking_buckets}
use iotex_analytics.Paging.Pages.{serves, get_all_staking_buckets_lem}
use iotex_analytics.Indexer.{
  Protocol, Indexer, Chain, batch_loop, index_block, index_blocks, build_index, batch_count,
  index_in_batch,
}
use iotex_analytics.Indexer.Progress.{index_in_batch-ends}
use iotex_analytics.Indexer.Lost.{index_in_batch-lost}
use iotex_analytics.Indexer.Commits.{Reach, index_in_batch-Reach}
use iotex_analytics.Indexer.Batching.{raws_from, index_in_batch_lem, index_in_batch-last_height}

abbrev heights : Chain ℕ
heights = record {
  Raw = ℕ;
  get_raw_blocks = λ s n. ok (raws_from (λ h. h) s n);
  convert = λ h. ok h;
  height = λ h. h;
}

-- A protocol that counts the blocks.
abbrev counting : Protocol ℕ ℕ ℕ
counting = record {
  create_tables = λ w. (ok tt, w);
  initialize = λ w. (ok tt, w);
  handle_block = λ b w. (ok tt, record w { db = w.db + 1 });
}

abbrev at_height : ℕ → Indexer ℕ ℕ ℕ
at_height h = record {
  registry = record { protocols = [] };
  index_protocols = counting ∷ [];
  last_height = h;
  world = record { db = h; memory = 0; faults = [] };
}

index_in_batch-ends_example :
    (r : Go (Unit {0}) × Indexer ℕ ℕ ℕ) × (index_in_batch heights 2 5 (at_height 0) ≡ some r)
index_in_batch-ends_example =
    index_in_batch-ends heights 2 5 (at_height 0) (omega arith) (omega arith)

index_in_batch_lem_example :
    index_in_batch heights 2 5 (at_height 0)
    ≡ some (index_blocks heights (raws_from (λ h. h) 1 5) (at_height 0))
index_in_batch_lem_example =
    index_in_batch_lem heights (λ h. h) (λ s c. refl) 2 5 (at_height 0) (omega arith) (omega arith)
      (omega arith)

abbrev indexed : Indexer ℕ ℕ ℕ
indexed = record {
  registry = record { protocols = [] };
  index_protocols = counting ∷ [];
  last_height = 5;
  world = record { db = 5; memory = 0; faults = [] };
}

indexed_to_five : index_in_batch heights 2 5 (at_height 0) ≡ some (ok tt, indexed)
unfolding index_in_batch batch_loop batch_count index_blocks index_block build_index transact finish
    for_each ◌>>=◌ wrap_error add64 sub64
indexed_to_five = refl

index_in_batch-last_height_example : indexed.last_height ≡ 5
index_in_batch-last_height_example =
    index_in_batch-last_height heights (λ h. h) (λ s c. refl) (λ s b e. ground (arith, e)) 2 5
      (at_height 0) indexed (omega arith) (omega arith) (omega arith) indexed_to_five

index_in_batch-Reach_example :
    (indexed.index_protocols ≡ counting ∷ []) × Reach heights (counting ∷ []) 0 5
index_in_batch-Reach_example =
    index_in_batch-Reach heights 2 5 (at_height 0) (ok tt) indexed indexed_to_five

-- A protocol that panics after it has written.
abbrev panicking : Protocol ℕ ℕ ℕ
panicking = record {
  create_tables = λ w. (ok tt, w);
  initialize = λ w. (ok tt, w);
  handle_block = λ b w. (panic, record w { db = w.db + 1 });
}

abbrev with_panic : Indexer ℕ ℕ ℕ
with_panic = record (at_height 0) { index_protocols = panicking ∷ counting ∷ [] }

index_in_batch-lost_example :
    (idx : Indexer ℕ ℕ ℕ) × (index_in_batch heights 2 5 with_panic ≡ some (ok tt, idx))
    × (idx.last_height ≡ 5)
    × (idx.world.db ≡ 0)
index_in_batch-lost_example =
    index_in_batch-lost panicking (counting ∷ []) (λ b w h. (refl, h)) heights (λ h. h)
      (λ h. (h, refl)) 2 5 with_panic (λ s c. refl) (λ s b e. ground (arith, e)) (omega arith)
      (omega arith) (omega arith) refl refl

abbrev two_buckets : List VoteBucket
two_buckets =
    record {
      index = 1;
      candidate_address = "c";
      owner = "v";
      staked_amount = number 9;
      staked_duration = 1;
      auto_stake = true;
      stake_start_time = 5;
      unstake_start_time = 0;
    }
    ∷ record {
      index = 2;
      candidate_address = "c";
      owner = "v";
      staked_amount = number 9;
      staked_duration = 1;
      auto_stake = true;
      stake_start_time = 5;
      unstake_start_time = 9;
    }
    ∷ []

get_all_staking_buckets_lem_example :
    get_all_staking_buckets (serves two_buckets) 1 ≡ some (ok (keep is_staked two_buckets))
get_all_staking_buckets_lem_example =
    get_all_staking_buckets_lem two_buckets 1 (omega arith) (omega arith)
