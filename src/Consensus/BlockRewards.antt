-- ===== src/Consensus/BlockRewards.antt =====
-- tad/consensus/block_rewards.py: the rewards of a block, in mtad.
pub mod Schedule
use tad_blockchain.Base.{ℕ, ◌*◌, ◌/◌, ltb, ◌==◌, if◌then◌else◌}
use tad_blockchain.Base.Result.{Result, uint64}

abbrev pub mtad_per_tad : ℕ
mtad_per_tad = 1000000000000

abbrev pub blocks_per_year : ℕ
blocks_per_year = 1681920

-- The first statement of the body returns; what follows it in the source is never reached.
unfoldable pub calculate_pool_reward : ℕ → Result ℕ
calculate_pool_reward height = uint64 0

-- `int(0.5 * _mtad_per_tad)` and `int(0.25 * _mtad_per_tad)` are exact.
unfoldable pub calculate_base_farmer_reward : ℕ → Result ℕ
calculate_base_farmer_reward height =
    if height == 0
    then uint64 (300000 * mtad_per_tad)
    else if ltb height (3 * blocks_per_year)
    then uint64 (2 * mtad_per_tad)
    else if ltb height (6 * blocks_per_year)
    then uint64 (1 * mtad_per_tad)
    else if ltb height (9 * blocks_per_year)
    then uint64 (mtad_per_tad / 2)
    else if ltb height (12 * blocks_per_year)
    then uint64 (mtad_per_tad / 4)
    else uint64 (1 * mtad_per_tad)
