-- ===== src/Consensus/Body/Validate.antt =====
-- validate_block_body: the checks of a block's body in their order, and its result.
use tad_blockchain.Base.{ℕ, not, ◌||◌, Option, none, some, [], ◌++◌, ◌==◌}
use tad_blockchain.Base.Dict.{Dict}
use tad_blockchain.Consensus.Body.Foliage.{
  check_no_body, check_hashes, check_rewards, check_generator_root, check_generator_refs,
}
use tad_blockchain.Consensus.Body.Fork.{BodyStores, fork_height, changes_since_fork}
use tad_blockchain.Consensus.Body.Spends.{
  Effects, run_effects, removals_of, removals_puzzle_dic, index_additions, check_outputs,
  removal_records, check_amounts, check_puzzles, check_conditions, check_signature,
}
use tad_blockchain.Consensus.Chain.{BlockchainInterface}
use tad_blockchain.Consensus.Cost.{NpcResult}
use tad_blockchain.Types.Block.{FullBlock, FoliageTransactionBlock, TransactionsInfo}
use tad_blockchain.Types.BlockRecord.{BlockRecord, Coin}
use tad_blockchain.Types.Bytes.{Bytes32}
use tad_blockchain.Types.Constants.{ConsensusConstants}
use tad_blockchain.Types.Errors.{
  Outcome, valid, invalid, ◌>>=◌, ◌>>◌, call, reject_if, expect, is_transaction_block_but_no_data,
  invalid_block_cost,
}
use tad_blockchain.Types.Primitives.{Primitives}

module _ (primitives : Primitives) (constants : ConsensusConstants) (blocks : BlockchainInterface)
    (stores : BodyStores) (peak : Option BlockRecord) (block : FullBlock) (height : ℕ)
    (fork_point_with_peak : Option ℕ) where
  -- Checks 15 to 22, of the spends and all coins of the block.
  unfoldable pub validate_spends :
      FoliageTransactionBlock → TransactionsInfo → ℕ → Effects → Dict Coin → Outcome (Unit {0})
  unfolding fork_height changes_since_fork removal_records check_amounts check_puzzles
      check_conditions check_signature
  validate_spends ftb info prev_transaction_block_height effects additions_dic = do
    let removals = removals_of effects.npc_list
    fork_h ← call (fork_height blocks peak block height fork_point_with_peak)
    since ← call (changes_since_fork primitives constants stores block height fork_h)
    removal_coin_records ←
        removal_records primitives constants stores height ftb.timestamp fork_h additions_dic since
          removals []
    check_amounts primitives constants info height effects removal_coin_records
    check_puzzles primitives constants (removals_puzzle_dic effects.npc_list [])
        removal_coin_records
    pairs ←
        check_conditions primitives constants prev_transaction_block_height ftb.timestamp
          removal_coin_records effects.npc_list
    check_signature primitives constants block info pairs

  -- Checks 3 to 14, and then those of the spends.
  unfoldable pub validate_transactions :
      Bytes32
      → FoliageTransactionBlock
      → TransactionsInfo
      → Option NpcResult
      → Outcome (Option NpcResult)
  unfolding check_hashes check_rewards check_generator_root check_generator_refs run_effects
      index_additions check_outputs validate_spends
  validate_transactions foliage_transaction_block_hash ftb info npc_result = do
    check_hashes primitives ftb info foliage_transaction_block_hash
    (prev_height, coinbase_additions) ← check_rewards constants blocks ftb info height
    check_generator_root primitives block info
    check_generator_refs primitives constants block info height
    effects ← run_effects primitives constants block.transactions_generator npc_result
    reject_if (not (info.cost == effects.cost)) invalid_block_cost
    let all_additions = effects.additions ++ coinbase_additions
    additions_dic ← index_additions primitives constants all_additions []
    check_outputs primitives constants ftb all_additions (removals_of effects.npc_list)
    validate_spends ftb info prev_height effects additions_dic
    valid npc_result

  -- Checks 1 and 2 on the parts of the block, and then the others.
  unfoldable pub validate_parts :
      Option Bytes32
      → Option FoliageTransactionBlock
      → Option TransactionsInfo
      → Option NpcResult
      → Outcome (Option NpcResult)
  unfolding check_no_body validate_transactions
  validate_parts none ftb info npc_result = do check_no_body blocks block; valid none
  validate_parts (some h) none info npc_result = invalid is_transaction_block_but_no_data
  validate_parts (some h) (some ftb) none npc_result = invalid is_transaction_block_but_no_data
  validate_parts (some h) (some ftb) (some info) npc_result =
      validate_transactions h ftb info npc_result

  unfoldable pub validate_block_body : Option NpcResult → Outcome (Option NpcResult)
  unfolding validate_parts
  validate_block_body npc_result = do
    expect (not block.is_full || height == block.height)
    validate_parts block.foliage_transaction_block_hash block.foliage_transaction_block
        block.transactions_info npc_result
