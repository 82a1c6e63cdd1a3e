-- ===== src/Consensus/Deficit/Countdown.antt =====
-- The deficit as a state machine: bounded by the minimum, falling by one,
-- at rest at 0 until a sub-slot ends, and held at the minimum only while overflow blocks come.
use tad_blockchain.Base.{ℕ, ◌+◌, ◌≤◌, ◌<◌, ◌≡◌, ◌⊎◌, Bool, true, some, arith}
use tad_blockchain.Base.Result.{Returns}
use tad_blockchain.Types.BlockRecord.{BlockRecord}
use tad_blockchain.Types.Constants.{ConsensusConstants}
use tad_blockchain.Consensus.Deficit.{calculate_deficit}

module _ (constants : ConsensusConstants) where
  open constants use {min_blocks_per_challenge_block as minimum}

  -- Every block after one whose deficit is in range gets a deficit in range. It falls by one;
  -- or it rests at nothing, in the same sub-slot; or it rests at the minimum, at an overflow block
  -- of the same sub-slot; or, once a sub-slot has ended with the deficit at nothing, it starts
  -- over, at the minimum only for an overflow block.
  pub deficit_in_range :
      (height : ℕ) (prev : BlockRecord) (overflow : Bool) (slots : ℕ)
      → 0 < height
      → 0 < minimum
      → minimum < 256
      → prev.deficit ≤ minimum
      → Returns (calculate_deficit constants height (some prev) overflow slots) (λ d.
        (d ≤ minimum)
        × (d ≡ minimum → overflow ≡ true)
        × ((d + 1 ≡ prev.deficit)
            ⊎ (d ≡ prev.deficit) × (slots ≡ 0) × ((d ≡ 0) ⊎ (d ≡ minimum))
            ⊎ (prev.deficit ≡ 0) × (0 < slots) × (minimum ≤ d + 1)))
  unfolding calculate_deficit
  deficit_in_range height prev overflow slots hh pos small h = ground arith
