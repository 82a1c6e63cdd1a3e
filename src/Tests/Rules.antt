-- ===== src/Tests/Rules.antt =====
-- The numeric rules at the default constants.
use tad_blockchain.Base.{
  ℕ, ◌+◌, ◌*◌, ◌^◌, ◌/◌, ◌%◌, ◌<◌, ◌≤◌, ◌≡◌, refl, true, false, some, arith, max, ◌⊎◌, ◌-◌,
}
use tad_blockchain.Base.Bits.{bit_length}
use tad_blockchain.Base.Int.{negsuc}
use tad_blockchain.Base.Result.{ok, Returns}
use tad_blockchain.Consensus.BlockRewards.{blocks_per_year, mtad_per_tad}
use tad_blockchain.Consensus.BlockRewards.Schedule.{block_reward, block_reward-halving}
use tad_blockchain.Consensus.Deficit.{calculate_deficit}
use tad_blockchain.Consensus.Deficit.Countdown.{deficit_in_range}
use tad_blockchain.Consensus.Difficulty.Adjust.{adjust_sub_slot_iters, adjust_difficulty}
use tad_blockchain.Consensus.Difficulty.Limits.{
  clamp, rounded_to_slots, adjust_difficulty-clamp, adjust_sub_slot_iters-clamp,
}
use tad_blockchain.Consensus.PotIterations.{
  is_overflow_block, calculate_ip_iters, calculate_iterations_quality, expected_plot_size,
  calculate_sp_iters, calculate_sp_interval_iters,
}
use tad_blockchain.Consensus.PotIterations.Infusion.{IsPlaced, ip_iters-is_overflow, ip_iters_sound}
use tad_blockchain.Consensus.PotIterations.Quality.{quality_bounds}
use tad_blockchain.Tests.Samples.{block}
use tad_blockchain.Types.Bytes.{Bytes, Bytes32}
use tad_blockchain.Types.Constants.{default_constants}
use tad_blockchain.Util.SignificantBits.{
  truncate_to_significant_bits, count_significant_bits, with_sign,
}
use tad_blockchain.Util.SignificantBits.Laws.{rounded_down, truncate-rounded_down}

-- The examples of the docstrings: -0b011110101 to two bits, and the bits of -0b000110010000.
truncated : truncate_to_significant_bits (negsuc 244) 2 ≡ negsuc 191
unfolding truncate_to_significant_bits bit_length
truncated = refl

counted : count_significant_bits (negsuc 399) ≡ 5
unfolding count_significant_bits bit_length
counted = refl

truncate-rounded_down_example :
    truncate_to_significant_bits (negsuc 244) 2 ≡ with_sign (negsuc 244) (rounded_down 245 2)
truncate-rounded_down_example = truncate-rounded_down (negsuc 244) 2

-- 62 is the last but one signage point of a sub-slot: its block overflows.
overflowing : calculate_ip_iters default_constants 6400 62 5 ≡ ok 105
unfolding calculate_ip_iters calculate_sp_iters calculate_sp_interval_iters
overflowing = refl

placed : IsPlaced default_constants 100 62 5
placed = omega arith

ip_iters-is_overflow_example :
    (is_overflow_block default_constants 62 ≡ ok false)
      × (62 + 3 < 64)
      × (calculate_ip_iters default_constants (100 * 64) 62 5 ≡ ok ((62 + 3) * 100 + 5))
    ⊎ (is_overflow_block default_constants 62 ≡ ok true)
      × (64 ≤ 62 + 3)
      × (calculate_ip_iters default_constants (100 * 64) 62 5 ≡ ok ((62 + 3 - 64) * 100 + 5))
ip_iters-is_overflow_example = ip_iters-is_overflow default_constants 100 62 5 placed

ip_iters_sound_example :
    (◌<◌ 62 64) × (6400 % 64 ≡ 0) × (◌<◌ 0 5) × (5 < 6400 / 64) × (◌<◌ 105 6400)
ip_iters_sound_example = ip_iters_sound default_constants 6400 62 5 overflowing

-- A stand-in for the hash: any function into 32-byte strings.
abbrev one_half : Bytes → Bytes32
one_half blob = 2 ^ 255

quality_bounds_example :
    Returns
      (calculate_iterations_quality one_half (2 ^ 67) 7 32 1000 9)
      (λ v. (1 ≤ v) × (v ≤ max (1000 * 2 ^ 67 / expected_plot_size 32) 1))
unfolding expected_plot_size
quality_bounds_example =
    quality_bounds one_half (λ blob. omega arith) (2 ^ 67) 7 32 9 1000 (omega arith) (omega arith)

deficit_in_range_example :
    Returns (calculate_deficit default_constants 5 (some (block 104 103 4)) true 1) (λ d.
      (d ≤ 16)
      × (d ≡ 16 → true ≡ true)
      × ((d + 1 ≡ 0)
          ⊎ (d ≡ 0) × ◌≡◌ {A = ℕ} 1 0 × ((d ≡ 0) ⊎ (d ≡ 16))
          ⊎ ◌≡◌ {A = ℕ} 0 0 × (0 < 1) × (16 ≤ d + 1)))
deficit_in_range_example =
    deficit_in_range default_constants 5 (block 104 103 4) true 1 (omega arith) (omega arith)
      (omega arith) (omega arith)

block_reward-halving_example :
    block_reward 6000000 ≡ ok (2 * mtad_per_tad / 2 ^ (6000000 / (3 * blocks_per_year)))
block_reward-halving_example = block_reward-halving 6000000 (omega arith) (omega arith)

adjust_difficulty-clamp_example :
    adjust_difficulty default_constants 1000 5000
    ≡ ok (rounded_down (clamp (max 1 (1000 / 3)) (3 * 1000) 5000) 8)
adjust_difficulty-clamp_example =
    adjust_difficulty-clamp default_constants 1000 5000 (omega arith) (omega arith) (omega arith)

adjust_sub_slot_iters-clamp_example :
    adjust_sub_slot_iters default_constants 134217728 100
    ≡ ok (rounded_to_slots default_constants (clamp (max 64 (134217728 / 3)) (3 * 134217728) 100))
adjust_sub_slot_iters-clamp_example =
    adjust_sub_slot_iters-clamp default_constants 134217728 100 (omega arith) (omega arith) 6 refl
      (omega arith)
