-- ===== src/Lib.antt =====
-- A model of the core of the Tad blockchain (the Python package tad/) and theorems about it.
--
-- The program is a node of a proof-of-space-and-time chain. A block is made at a signage point of a
-- sub-slot and infused some iterations later; the consensus rules say where these points lie, what
-- the difficulty and the length of a sub-slot are, when an epoch ends, how far a challenge slot is
-- from its end, what a block earns and what its body may spend. They read the chain through a store
-- of block records, and all data is hashed and sent in one binary format.
-- Around them the full node keeps a set of hashes with a Merkle root, what its peers have told of blocks
-- while it syncs, the transactions that may be tried again, the checks of the mempool and the
-- limits on messages.
--
-- Base has what the other modules share: tests, lists, integers, dicts, sets, and Base.Result, the
-- exceptions of Python as values. Every function that can raise returns a Result; the constructors
-- uint8 to uint128 of tad/util/ints.py raise `ValueError` out of their range, and a difference that
-- is negative in the source is written out as such, since subtraction here stops at 0.
--
-- Which file models which part (a child module has the theorems about its parent, where it does not
-- model a part of its own):
--   Types.Constants          tad/consensus/constants.py, default_constants.py
--   Types.BlockRecord        tad/consensus/block_record.py, tad/types/blockchain_format
--   Types.Bytes              32-byte strings, as the big-endian numbers that they are
--   Types.Conditions         tad/types/condition_opcodes.py, condition_with_args.py,
--                            name_puzzle_condition.py, coin_record.py; conditions_by_opcode of
--                            tad/util/condition_tools.py
--   Types.Errors             tad/util/errors.py, and the outcome of a check
--   Types.Block              tad/types/full_block.py, blockchain_format/foliage.py
--   Types.Primitives         what the checks of a block take from third-party packages
--   Util.Streamable          tad/util/streamable.py, struct_stream.py, ints.py, byte_types.py
--   Util.LruCache            tad/util/lru_cache.py
--   Util.ConditionTools      tad/util/condition_tools.py, generator_tools.py
--   Util.SignificantBits     tad/util/significant_bits.py
--   Util.MerkleSet           tad/util/merkle_set.py; its nodes are in MerkleSet.Nodes
--   Consensus.PotIterations  tad/consensus/pot_iterations.py, pos_quality.py
--   Consensus.BlockIters     the methods of BlockRecord that compute iterations
--   Consensus.Deficit        tad/consensus/deficit.py
--   Consensus.BlockRewards   tad/consensus/block_rewards.py
--   Consensus.Cost           tad/consensus/cost_calculator.py, condition_costs.py
--   Consensus.Chain          tad/consensus/blockchain_interface.py, as a record of operations that
--                            the rules take, with the laws of a store of linked blocks (IsChain)
--   Consensus.BlockCache     tad/util/block_cache.py, an implementation of that interface
--   Consensus.Blockchain     tad/consensus/blockchain.py, with the tables of
--                            tad/full_node/block_store.py and hint_store.py: Changes has what a block
--                            changes in the stores of coins and hints, Branch the blocks that a new
--                            peak brings, Peak the change of the peak and the part of receive_block
--                            after the validation (accept_block); for the theorems Path and Follow
--                            treat the hashes by height, Coins and Ledger the coin store, Stored the
--                            new block in the tables
--   Consensus.BlockChallenge  tad/consensus/get_block_challenge.py,
--                            tad/util/prev_transaction_block.py
--   Consensus.ForkPoint      tad/consensus/find_fork_point.py
--   Consensus.Difficulty     tad/consensus/difficulty_adjustment.py: Fetch has the look-ups of
--                            blocks, EpochEnd the test for the end of an epoch, Adjust the limits
--                            and the rounding, Next the entry points
--   Consensus.Body           tad/consensus/block_body_validation.py: Rewards has the reward coins
--                            and tad/consensus/coinbase.py, Roots block_root_validation.py, Fork the
--                            blocks since the fork point, Foliage the checks 1 to 8, Spends the
--                            others, Validate the whole function
--   FullNode.SyncStore       tad/full_node/sync_store.py
--   FullNode.CoinStore       tad/full_node/coin_store.py: a cache before a table, which is the list of
--                            its rows with SQL's statements on it (Base.Table); Queries has the
--                            queries and the states of coins that wallets are told
--   FullNode.PendingTxCache  tad/full_node/pending_tx_cache.py, tad/types/mempool_item.py
--   FullNode.MempoolConditions  tad/full_node/mempool_check_conditions.py
--   Server.RateLimits        tad/server/rate_limits.py, its tables in Tables; Server.MessageTypes
--                            has tad/protocols/protocol_message_types.py
-- Functions and fields have the names of the source.
--
-- A `while` loop that follows the parents runs on fuel: the height of the first block and one or
-- two rounds more, or the sum of the two heights and one in find_fork_point_in_chain, since each
-- round goes down by one height at least. The loop that waits for a sub-epoch summary has a round
-- for each block that was fetched, since it reads the next one in each round.
-- Running out raises out_of_fuel, which is no exception of the source. The Merkle set's
-- `_make_middle` has a round for each of the 256 bits and one more, in which the index of the bit is
-- out of range. The other loops are recursion on their lists.
--
-- Parameters stand for code that is not in the repository: SHA-256, the CLVM encoding of integers,
-- the run of a generator in CLVM, the compact filter of BIP 158, reading a public key and checking an
-- aggregated signature, the clock, the product of a limit with a float; and for the look-ups of
-- blocks and coins that the rules take. get_name_puzzle_conditions of
-- tad/full_node/mempool_check_conditions.py, which runs a generator and parses what CLVM gives, is such
-- a parameter too, though it is a function of the repository. A table gives the rows of a query in the
-- order of insertion, which SQL leaves open where the source does not sort them. The asynchronous
-- event of the sync store is its flag. Not modelled are the network, the databases themselves but for
-- the tables of coins, blocks and hints, CLVM, proofs of space and time and the processes around them;
-- and of the rest of the core so far the validation of headers, the mempool itself and weight proofs.
-- Of the binary format text, signed integers and elements of signatures are left out.
pub mod Base
pub mod Types
pub mod Util
pub mod Consensus
pub mod FullNode
pub mod Server
mod Tests
