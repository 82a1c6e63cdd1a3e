-- ===== src/Consensus/Difficulty/Adjust.antt =====
-- The arithmetic of a new epoch in _get_next_sub_slot_iters and _get_next_difficulty
-- (tad/consensus/difficulty_adjustment.py): the precise values, their limits and the rounding.
use tad_blockchain.Base.{ℕ, zero, suc, ◌-◌, ◌*◌, ◌/◌, min, max, leb, if◌then◌else◌}
use tad_blockchain.Base.Int.{ℤ, pos, negsuc}
use tad_blockchain.Base.Result.{
  Result, ok, raise, value_error, zero_division_error, ◌>>=◌, ◌>>◌, assert, uint64, floor_div,
  modulo,
}
use tad_blockchain.Types.Constants.{ConsensusConstants}
use tad_blockchain.Util.SignificantBits.{truncate_to_significant_bits, count_significant_bits}

-- `uint64(x)`
abbrev pub uint64_of : ℤ → Result ℕ
uint64_of (pos n) = uint64 n
uint64_of (negsuc n) = raise value_error

-- `uint64(a // b)`: a quotient of unlike signs is negative, unless it is 0.
abbrev pub uint64_quotient : ℤ → ℤ → Result ℕ
uint64_quotient a (pos zero) = raise zero_division_error
uint64_quotient (pos a) (pos (suc b)) = uint64 (a / suc b)
uint64_quotient (negsuc a) (negsuc b) = uint64 (suc a / suc b)
uint64_quotient (pos zero) (negsuc b) = uint64 0
uint64_quotient (pos (suc a)) (negsuc b) = raise value_error
uint64_quotient (negsuc a) (pos (suc b)) = raise value_error

-- From `new_ssi = truncate_to_significant_bits(...)` on.
unfoldable pub round_sub_slot_iters : ConsensusConstants → ℕ → Result ℕ
round_sub_slot_iters constants limited = do
  truncated ← uint64_of (truncate_to_significant_bits (pos limited) constants.significant_bits)
  rest ← modulo truncated constants.num_sps_sub_slot
  new_ssi ← uint64 (truncated - rest)
  assert (leb (count_significant_bits (pos new_ssi)) constants.significant_bits)
  ok new_ssi

-- `uint64(max_ssi)` and the rest, from the sub-slot iterations of the last block and the precise value.
unfoldable pub adjust_sub_slot_iters : ConsensusConstants → ℕ → ℕ → Result ℕ
adjust_sub_slot_iters constants last_sub_slot_iters new_ssi_precise = do
  max_ssi ← uint64 (constants.difficulty_change_max_factor * last_sub_slot_iters)
  least ← floor_div last_sub_slot_iters constants.difficulty_change_max_factor
  min_ssi ← uint64 least
  limited ← uint64 (
      if leb last_sub_slot_iters new_ssi_precise
      then min new_ssi_precise max_ssi
      else max (max constants.num_sps_sub_slot new_ssi_precise) min_ssi)
  round_sub_slot_iters constants limited

unfoldable pub adjust_difficulty : ConsensusConstants → ℕ → ℕ → Result ℕ
adjust_difficulty constants old_difficulty new_difficulty_precise = do
  max_diff ← uint64 (constants.difficulty_change_max_factor * old_difficulty)
  least ← floor_div old_difficulty constants.difficulty_change_max_factor
  min_diff ← uint64 least
  limited ← uint64 (
      if leb old_difficulty new_difficulty_precise
      then min new_difficulty_precise max_diff
      else max (max 1 new_difficulty_precise) min_diff)
  new_difficulty ← uint64_of (truncate_to_significant_bits (pos limited) constants.significant_bits)
  assert (leb (count_significant_bits (pos new_difficulty)) constants.significant_bits)
  uint64 new_difficulty
