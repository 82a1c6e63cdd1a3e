-- ===== src/Consensus/BlockRewards/Schedule.antt =====
-- The rewards against the schedule that the docstrings describe.
use tad_blockchain.Base.{ℕ, zero, suc, ◌+◌, ◌*◌, ◌/◌, ◌^◌, ◌<◌, ◌≡◌, refl, arith}
use tad_blockchain.Base.Result.{Result, ok, ◌>>=◌}
use tad_blockchain.Consensus.BlockRewards.{
  mtad_per_tad, blocks_per_year, calculate_pool_reward, calculate_base_farmer_reward,
}

-- The pool's part and the farmer's part of one block.
abbrev pub block_reward : ℕ → Result ℕ
block_reward height = do
  pool ← calculate_pool_reward height
  farmer ← calculate_base_farmer_reward height
  ok (pool + farmer)

reward_in_era :
    (height era : ℕ)
    → 0 < height
    → height / (3 * blocks_per_year) ≡ era
    → era < 4
    → block_reward height ≡ ok (2 * mtad_per_tad / 2 ^ era)
unfolding calculate_pool_reward calculate_base_farmer_reward
reward_in_era height zero pos e h = ground arith
reward_in_era height (suc zero) pos e h = ground arith
reward_in_era height (suc (suc zero)) pos e h = ground arith
reward_in_era height (suc (suc (suc zero))) pos e h = ground arith
reward_in_era height (suc (suc (suc (suc era)))) pos e h = absurd (omega arith)

-- For twelve years the reward of a block is two coins, halved once for each three years gone by.
pub block_reward-halving :
    (height : ℕ)
    → 0 < height
    → height < 12 * blocks_per_year
    → block_reward height ≡ ok (2 * mtad_per_tad / 2 ^ (height / (3 * blocks_per_year)))
block_reward-halving height pos h =
    reward_in_era height (height / (3 * blocks_per_year)) pos refl (omega arith)
