-- ===== src/Consensus/Body/Rewards.antt =====
-- The reward coins that a transaction block has to claim (check 5), and tad/consensus/coinbase.py.
use tad_blockchain.Base.{
  ℕ, zero, suc, ◌+◌, ◌*◌, ◌/◌, ◌%◌, ◌^◌, Bool, true, false, ◌&&◌, ◌||◌, List, [], ◌∷◌, ◌==◌,
  if◌then◌else◌,
}
use tad_blockchain.Base.Result.{
  Result, ok, raise, assertion_error, out_of_fuel, ◌>>=◌, or_raise, uint64,
}
use tad_blockchain.Consensus.BlockRewards.{calculate_pool_reward, calculate_base_farmer_reward}
use tad_blockchain.Consensus.Chain.{BlockchainInterface}
use tad_blockchain.Types.BlockRecord.{BlockRecord, Coin, is_transaction_block}
use tad_blockchain.Types.Bytes.{Bytes32}
use tad_blockchain.Types.Constants.{ConsensusConstants}

-- The first half of the challenge, or the second, and then the height in 16 bytes.
unfoldable pub pool_parent_id : ℕ → Bytes32 → Bytes32
pool_parent_id block_height genesis_challenge = genesis_challenge / 2 ^ 128 * 2 ^ 128 + block_height

unfoldable pub farmer_parent_id : ℕ → Bytes32 → Bytes32
farmer_parent_id block_height genesis_challenge =
    genesis_challenge % 2 ^ 128 * 2 ^ 128 + block_height

unfoldable pub create_pool_coin : ℕ → Bytes32 → ℕ → Bytes32 → Coin
unfolding pool_parent_id
create_pool_coin block_height puzzle_hash reward genesis_challenge = record {
  parent_coin_info = pool_parent_id block_height genesis_challenge;
  puzzle_hash = puzzle_hash;
  amount = reward;
}

unfoldable pub create_farmer_coin : ℕ → Bytes32 → ℕ → Bytes32 → Coin
unfolding farmer_parent_id
create_farmer_coin block_height puzzle_hash reward genesis_challenge = record {
  parent_coin_info = farmer_parent_id block_height genesis_challenge;
  puzzle_hash = puzzle_hash;
  amount = reward;
}

abbrev pub same_coin : Coin → Coin → Bool
same_coin a b =
    a.parent_coin_info == b.parent_coin_info
    && a.puzzle_hash == b.puzzle_hash
    && a.amount == b.amount

-- A Python set of coins, in the order in which they were added.
abbrev pub has_coin : Coin → List Coin → Bool
has_coin coin [] = false
has_coin coin (c ∷ coins) = same_coin c coin || has_coin coin coins

abbrev pub add_coin : Coin → List Coin → List Coin
add_coin coin coins = if has_coin coin coins then coins else coin ∷ coins

abbrev pub coin_set : List Coin → List Coin
coin_set [] = []
coin_set (coin ∷ coins) = add_coin coin (coin_set coins)

abbrev pub all_in : List Coin → List Coin → Bool
all_in [] coins = true
all_in (c ∷ cs) coins = has_coin c coins && all_in cs coins

-- `a == b` of two sets.
abbrev pub same_coins : List Coin → List Coin → Bool
same_coins a b = all_in a b && all_in b a

module _ (constants : ConsensusConstants) (blocks : BlockchainInterface) where
  open constants use {genesis_challenge}
  open blocks use {block_record}

  -- The two coins of a block, whose farmer gets the fees too.
  unfoldable pub add_rewards : BlockRecord → ℕ → List Coin → Result (List Coin)
  unfolding create_pool_coin create_farmer_coin
  add_rewards b fees coins = do
    pool_reward ← calculate_pool_reward b.height
    base_reward ← calculate_base_farmer_reward b.height
    farmer_reward ← uint64 (base_reward + fees)
    let pool_coin = create_pool_coin b.height b.pool_puzzle_hash pool_reward genesis_challenge
    let farmer_coin =
        create_farmer_coin b.height b.farmer_puzzle_hash farmer_reward genesis_challenge
    ok (add_coin farmer_coin (add_coin pool_coin coins))

  -- The loop back to the transaction block before the previous one.
  unfoldable pub rewards_since : ℕ → BlockRecord → List Coin → Result (List Coin)
  unfolding add_rewards
  rewards_since zero curr_b coins = raise out_of_fuel
  rewards_since (suc fuel) curr_b coins = elim (is_transaction_block curr_b) [
    | true ↦ ok coins
    | false ↦ do
      coins' ← add_rewards curr_b 0 coins
      prev_b ← block_record curr_b.prev_hash
      rewards_since fuel prev_b coins'
  ]

  -- The height of the previous transaction block, 0 for the first block, and the coins of that block
  -- and of the blocks that are no transaction blocks before it.
  unfoldable pub expected_rewards : ℕ → Bytes32 → Result (ℕ × List Coin)
  unfolding add_rewards rewards_since
  expected_rewards height prev_transaction_block_hash = if height == 0 then ok (0, []) else do
    prev_transaction_block ← block_record prev_transaction_block_hash
    fees ← or_raise prev_transaction_block.fees assertion_error
    coins ← add_rewards prev_transaction_block fees []
    if prev_transaction_block.height == 0 then ok (0, coins) else do
      curr_b ← block_record prev_transaction_block.prev_hash
      coins' ← rewards_since (curr_b.height + 2) curr_b coins
      ok (prev_transaction_block.height, coins')
