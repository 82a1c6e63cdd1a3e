-- ===== src/Consensus/BlockIters.antt =====
-- The methods of `BlockRecord` (tad/consensus/block_record.py) that say where a block's signage
-- point and infusion point lie among all iterations since genesis.
use tad_blockchain.Base.{ℕ, ◌+◌, if◌then◌else◌}
use tad_blockchain.Base.Result.{Result, ok, ◌>>=◌, uint128, uint_sub}
use tad_blockchain.Consensus.PotIterations.{calculate_sp_iters, calculate_ip_iters}
use tad_blockchain.Types.BlockRecord.{BlockRecord}
use tad_blockchain.Types.Constants.{ConsensusConstants}

module _ (b : BlockRecord) (constants : ConsensusConstants) where
  unfoldable pub ip_iters : Result ℕ
  ip_iters = calculate_ip_iters constants b.sub_slot_iters b.signage_point_index b.required_iters

  unfoldable pub sp_iters : Result ℕ
  sp_iters = calculate_sp_iters constants b.sub_slot_iters b.signage_point_index

  -- A total that lies below the difference does not fit the type of the result.
  unfoldable pub sp_sub_slot_total_iters : Result ℕ
  unfolding ip_iters
  sp_sub_slot_total_iters = do
    ip ← ip_iters
    if b.overflow
        then uint_sub uint128 b.total_iters (ip + b.sub_slot_iters)
        else uint_sub uint128 b.total_iters ip

  unfoldable pub ip_sub_slot_total_iters : Result ℕ
  unfolding ip_iters
  ip_sub_slot_total_iters = do ip ← ip_iters; uint_sub uint128 b.total_iters ip

  unfoldable pub sp_total_iters : Result ℕ
  unfolding sp_sub_slot_total_iters sp_iters
  sp_total_iters = do start ← sp_sub_slot_total_iters; sp ← sp_iters; ok (start + sp)
