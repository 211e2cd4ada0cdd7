-- ===== src/Lib.antt =====
-- iotex-analytics reads the blocks of a chain into a MySQL database and answers queries on it.
--
-- The parts and how they meet. The indexer (indexservice/indexer.go) keeps a registry of protocols
-- (indexprotocol/registry.go). It asks the chain for blocks and gives each block to every protocol
-- within one transaction of the store (sql/storebase.go). The protocols (indexprotocol/*) write their
-- tables, by epoch, and take the epoch of a height from epochctx/epochctx.go. The queries
-- (queryprotocol/*) read the tables.
--
-- Which file models what:
--   Common        names that all use: outcomes of a Go call (a value, an error, a panic or the end of
--                 the process), uint64 arithmetic with its wrap-around, maps, signed integers.
--   Epoch         epochctx/epochctx.go: NewEpochCtx with its options, GetEpochNumber,
--                 GetEpochHeight, FairbankEffectiveHeight.
--   DelegateName  EncodeDelegateName and DecodeDelegateName of indexprotocol/protocol.go.
--   Store         Transact of sql/storebase.go. A step takes the database, what the protocols keep in
--                 memory, and the list that says which of the coming calls of the database fail.
--   Registry      indexprotocol/registry.go.
--   Indexer       indexservice/indexer.go: RegisterProtocol, Initialize, CreateTablesIfNotExist,
--                 RegisterDefaultProtocols, buildIndex and IndexInBatch. A protocol is a
--                 record of its three methods.
--   Rewards       breakdownRewards of indexprotocol/rewards/protocol.go.
--   RewardTables  the rest of that file's tables: getRewardInfoFromReceipt, updateRewardHistory,
--                 getVotingInfo, getProductivity, rebuildAccountRewardTable; Handling has HandleBlock
--                 and the updates of the names of the reward addresses.
--   Accounts      indexprotocol/accounts/protocol.go: HandleBlock, Initialize and the three
--                 statements of rebuildAccountIncomeTable.
--   Blocks        indexprotocol/blocks/protocol.go: HandleBlock, updateDelegates and what it calls,
--                 rebuildProductivityTable. The memory is the record `Producers`.
--   Actions       indexprotocol/actions: HandleBlock and updateActionHistory (protocol.go),
--                 updateXrc20History, the kinds of contracts and ParseContractData (xrc20.go),
--                 updateHermesContract (hermes.go), updateBucketActions (bucket.go).
--   Votings       indexprotocol/votings: processStaking with updateStakingResult and
--                 updateAggregateStaking (stakingprotocol.go), and the probation list (probation.go).
--   Bookkeeping   queryprotocol/rewards/protocol.go: GetBookkeeping, GetHermesBookkeeping,
--                 GetAverageHermesStats, GetRewardSources and their readers.
--   Paging        GetAllStakingBuckets and GetAllStakingCandidates of indexprotocol/protocol.go.
--   Tests         the theorems at concrete inputs.
--
-- How the code corresponds. A function that returns an error is a function into `Go`; one that writes
-- to the database is a `Run`. A map is an association list, and a loop over it goes through the list
-- in its order, which stands for the order that a run picks. A SQL statement of the source is a
-- function on the rows that it names; a table with a unique key is a map by that key. Texts of
-- DECIMAL columns are numbers where the database computed them, and otherwise the number that they
-- print or a text that big.Int refuses. A float64 percentage is what the code reads of it. The
-- numbers of an error's text are left out.
--
-- Fuel. The loop of IndexInBatch runs on one round for each height that is left and one more; with a
-- positive query limit that is enough for the answer to be there. The paging loops take their
-- number of rounds; one round more than there are full pages is enough. The other loops go through lists.
--
-- Not modelled, or parameters. The chain client, the election client, backoff.Retry, address
-- conversions and proto.Unmarshal are parameters or given answers, as are the table operators of the voting protocol, its arithmetic on
-- big.Float and float64, and util.Sort. A statement that is closed reports no error of its own.
-- What getLastEpochPortion reads outside the transaction are the rows of the epoch before, which the
-- transaction does not write. Comparison of texts in the database is equality, without the
-- collation of a server. The voting protocol before the Fairbank height, GraphQL, the generated contract
-- binding and the start of the process are not modelled; the manifest of parts says why.
pub mod Common
pub mod DelegateName
pub mod Epoch
pub mod Store
pub mod Registry
pub mod Indexer
pub mod Rewards
pub mod Bookkeeping
pub mod Accounts
pub mod Actions
pub mod Blocks
pub mod RewardTables
pub mod Paging
pub mod Tests
pub mod Votings
