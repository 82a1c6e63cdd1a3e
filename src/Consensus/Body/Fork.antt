-- ===== src/Consensus/Body/Fork.antt =====
-- What the blocks of a fork add and remove (check 15), from the block before the one that is checked
-- back to the fork point.
use tad_blockchain.Base.{
  ℕ, zero, suc, ◌+◌, ◌-◌, Bool, true, false, not, Option, none, some, List, [], ◌∷◌, ◌==◌, min,
  if◌then◌else◌, length,
}
use tad_blockchain.Base.Dict.{Dict, contains, insert, lookup}
use tad_blockchain.Base.Int.{ℤ, pos, negsuc, ltb_ℤ}
use tad_blockchain.Base.Result.{
  Result, ok, raise, key_error, assertion_error, out_of_fuel, ◌>>=◌, ◌>>◌, assert, or_raise,
}
use tad_blockchain.Base.Sets.{Set, member, add}
use tad_blockchain.Consensus.Body.Rewards.{coin_set}
use tad_blockchain.Consensus.Chain.{BlockchainInterface}
use tad_blockchain.Consensus.Cost.{NpcResult}
use tad_blockchain.Consensus.ForkPoint.{find_fork_point_in_chain}
use tad_blockchain.Types.Block.{FullBlock}
use tad_blockchain.Types.BlockRecord.{BlockRecord, Coin}
use tad_blockchain.Types.Bytes.{Bytes, Bytes32}
use tad_blockchain.Types.Conditions.{CoinRecord}
use tad_blockchain.Types.Constants.{ConsensusConstants}
use tad_blockchain.Types.Primitives.{Primitives, name}
use tad_blockchain.Util.ConditionTools.{tx_removals_and_additions}

-- What the check asks of the stores of blocks and coins, of the generators of earlier blocks, which
-- it fetches by a callback, and of the program that runs one up to a cost.
pub record BodyStores : Type 0 where
  pub get_full_block : Bytes32 → Option FullBlock
  pub get_coin_record : Bytes32 → Option CoinRecord
  pub get_block_generator : FullBlock → Result (Option Bytes)
  pub get_name_puzzle_conditions : Bytes → ℕ → Result NpcResult

-- A coin that a block of the fork added, with the block's height and timestamp.
pub record NewCoin : Type 0 where
  pub coin : Coin
  pub confirmed_height : ℕ
  pub confirmed_timestamp : ℕ

pub record SinceFork : Type 0 where
  pub additions : Dict NewCoin
  pub removals : Set

abbrev pub nothing_since : SinceFork
nothing_since = record { additions = []; removals = [] }

-- The fork point: -1 where there is no peak or for the first block.
unfoldable pub fork_height :
    BlockchainInterface → Option BlockRecord → FullBlock → ℕ → Option ℕ → Result ℤ
unfolding find_fork_point_in_chain
fork_height blocks none block height fork_point_with_peak = ok (negsuc 0)
fork_height blocks (some peak) block height fork_point_with_peak =
    if height == 0 then ok (negsuc 0) else elim fork_point_with_peak [
      | some fork_h ↦ ok (pos fork_h)
      | none ↦ do
        prev ← blocks.block_record block.prev_header_hash
        find_fork_point_in_chain blocks peak prev
    ]

module _ (primitives : Primitives) (constants : ConsensusConstants) (stores : BodyStores) where
  open stores use {get_full_block, get_block_generator, get_name_puzzle_conditions}

  -- The loop that fetches the blocks of the fork.
  unfoldable pub fetch_reorg : ℕ → ℤ → FullBlock → Dict FullBlock → Result (Dict FullBlock)
  fetch_reorg zero fork_h curr reorg_blocks = raise out_of_fuel
  fetch_reorg (suc fuel) fork_h curr reorg_blocks = elim (ltb_ℤ fork_h (pos curr.height)) [
    | false ↦ ok reorg_blocks
    | true ↦ elim (curr.height == 0) [
      | true ↦ ok reorg_blocks
      | false ↦ do
        prev ← or_raise (get_full_block curr.prev_header_hash) assertion_error
        fetch_reorg fuel fork_h prev (insert prev.height prev reorg_blocks)
    ]
  ]

  -- What a block of the fork spends and creates, by running its generator again.
  unfoldable pub changes_of : FullBlock → Result (List Bytes32 × List Coin)
  unfolding tx_removals_and_additions
  changes_of curr = elim curr.transactions_generator [
    | none ↦ ok ([], [])
    | some _ ↦ do
      found ← get_block_generator curr
      curr_block_generator ← or_raise found assertion_error
      info ← or_raise curr.transactions_info assertion_error
      curr_npc_result ←
          get_name_puzzle_conditions curr_block_generator
            (min constants.max_block_cost_clvm info.cost)
      tx_removals_and_additions primitives curr_npc_result.npc_list
  ]

  unfoldable pub add_removals : List Bytes32 → Set → Result Set
  add_removals [] removals_since_fork = ok removals_since_fork
  add_removals (c_name ∷ rest) removals_since_fork = do
    assert (not (member c_name removals_since_fork))
    add_removals rest (add c_name removals_since_fork)

  -- The two loops over new coins differ in the list only.
  unfoldable pub add_additions : FullBlock → List Coin → Dict NewCoin → Result (Dict NewCoin)
  add_additions curr [] additions_since_fork = ok additions_since_fork
  add_additions curr (c ∷ rest) additions_since_fork = do
    assert (not (contains (name primitives c) additions_since_fork))
    ftb ← or_raise curr.foliage_transaction_block assertion_error
    let new : NewCoin = record {
      coin = c;
      confirmed_height = curr.height;
      confirmed_timestamp = ftb.timestamp;
    }
    add_additions curr rest (insert (name primitives c) new additions_since_fork)

  -- `get_included_reward_coins`
  unfoldable pub included_reward_coins : FullBlock → Result (List Coin)
  included_reward_coins b = elim b.foliage_transaction_block [
    | none ↦ ok []
    | some _ ↦ do
      info ← or_raise b.transactions_info assertion_error
      ok (coin_set info.reward_claims_incorporated)
  ]

  -- The loop over the blocks of the fork, the latest first.
  unfoldable pub collect_fork : ℕ → ℤ → FullBlock → Dict FullBlock → SinceFork → Result SinceFork
  unfolding changes_of add_removals add_additions included_reward_coins
  collect_fork zero fork_h curr reorg_blocks since = raise out_of_fuel
  collect_fork (suc fuel) fork_h curr reorg_blocks since = elim (ltb_ℤ fork_h (pos curr.height)) [
    | false ↦ ok since
    | true ↦ do
      (removals_in_curr, additions_in_curr) ← changes_of curr
      removals ← add_removals removals_in_curr since.removals
      with_additions ← add_additions curr additions_in_curr since.additions
      coinbase ← included_reward_coins curr
      additions ← add_additions curr coinbase with_additions
      let since' : SinceFork = record { additions = additions; removals = removals }
      elim (curr.height == 0) [
        | true ↦ ok since'
        | false ↦ do
          prev ← or_raise (lookup (curr.height - 1) reorg_blocks) key_error
          collect_fork fuel fork_h prev reorg_blocks since'
      ]
  ]

  -- `len(reorg_blocks) == height - fork_h - 1`, where the fork point is not -1.
  abbrev pub expected_length : ℤ → ℕ → ℕ → Bool
  expected_length (negsuc n) height count = true
  expected_length (pos fork_h) height count = count + fork_h + 1 == height

  unfoldable pub changes_since_fork : FullBlock → ℕ → ℤ → Result SinceFork
  unfolding fetch_reorg collect_fork
  changes_since_fork block height fork_h = if height == 0 then ok nothing_since else do
    prev_block ← or_raise (get_full_block block.prev_header_hash) assertion_error
    reorg_blocks ← fetch_reorg (prev_block.height + 2) fork_h prev_block []
    assert (expected_length fork_h height (length reorg_blocks))
    collect_fork (prev_block.height + 2) fork_h prev_block reorg_blocks nothing_since
