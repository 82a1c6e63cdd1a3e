-- ===== src/Consensus/PotIterations.antt =====
-- tad/consensus/pot_iterations.py and tad/consensus/pos_quality.py: where in a sub-slot the
-- signage point and the infusion point of a block lie, and how long a proof of space has to wait.
pub mod Infusion
pub mod Quality
use tad_blockchain.Base.{
  ℕ, zero, suc, ◌+◌, ◌-◌, ◌*◌, ◌/◌, ◌%◌, ◌^◌, max, Bool, ◌||◌, not, List, ◌++◌, ltb, leb, ◌==◌,
  if◌then◌else◌,
}
use tad_blockchain.Base.Result.{
  Result, ok, raise, value_error, assertion_error, ◌>>=◌, ◌>>◌, raise_if, assert, uint64, floor_div,
  modulo,
}
use tad_blockchain.Types.Bytes.{Bytes, Bytes32, to_bytes, from_bytes}
use tad_blockchain.Types.Constants.{ConsensusConstants}

-- Where the extra intervals exceed the number of signage points the source's difference is
-- negative and its test holds of every index, as does the test against 0 here.
unfoldable pub is_overflow_block : ConsensusConstants → ℕ → Result Bool
is_overflow_block constants signage_point_index = do
  raise_if (leb constants.num_sps_sub_slot signage_point_index) value_error
  ok (leb (constants.num_sps_sub_slot - constants.num_sp_intervals_extra) signage_point_index)

unfoldable pub calculate_sp_interval_iters : ConsensusConstants → ℕ → Result ℕ
calculate_sp_interval_iters constants sub_slot_iters = do
  rest ← modulo sub_slot_iters constants.num_sps_sub_slot
  assert (rest == 0)
  interval ← floor_div sub_slot_iters constants.num_sps_sub_slot
  uint64 interval

unfoldable pub calculate_sp_iters : ConsensusConstants → ℕ → ℕ → Result ℕ
calculate_sp_iters constants sub_slot_iters signage_point_index = do
  raise_if (leb constants.num_sps_sub_slot signage_point_index) value_error
  interval ← calculate_sp_interval_iters constants sub_slot_iters
  uint64 (interval * signage_point_index)

unfoldable pub calculate_ip_iters : ConsensusConstants → ℕ → ℕ → ℕ → Result ℕ
calculate_ip_iters constants sub_slot_iters signage_point_index required_iters = do
  sp_iters ← calculate_sp_iters constants sub_slot_iters signage_point_index
  sp_interval_iters ← calculate_sp_interval_iters constants sub_slot_iters
  rest ← modulo sp_iters sp_interval_iters
  raise_if (not (rest == 0) || leb sub_slot_iters sp_iters) value_error
  raise_if (leb sp_interval_iters required_iters || required_iters == 0) value_error
  ip_iters ←
      modulo (sp_iters + constants.num_sp_intervals_extra * sp_interval_iters + required_iters)
        sub_slot_iters
  uint64 ip_iters

-- `int(_expected_plot_size(k))`: at k = 0 the power is a float below 1, which `int` takes to 0.
unfoldable pub expected_plot_size : ℕ → ℕ
expected_plot_size zero = 0
expected_plot_size (suc k) = (2 * suc k + 1) * 2 ^ k

-- `std_hash` is the SHA-256 of its argument, as a 32-byte string.
module _ (std_hash : Bytes → Bytes32) where
  unfoldable pub calculate_iterations_quality : ℕ → Bytes32 → ℕ → ℕ → Bytes32 → Result ℕ
  calculate_iterations_quality difficulty_constant_factor quality_string size difficulty
        cc_sp_output_hash =
      do
        let sp_quality = std_hash (to_bytes 32 quality_string ++ to_bytes 32 cc_sp_output_hash)
        quotient ←
            floor_div (difficulty * difficulty_constant_factor * sp_quality)
              (2 ^ 256 * expected_plot_size size)
        iters ← uint64 quotient
        ok (max iters 1)
