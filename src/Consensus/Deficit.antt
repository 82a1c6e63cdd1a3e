-- ===== src/Consensus/Deficit.antt =====
-- tad/consensus/deficit.py: how many blocks a challenge slot still needs.
pub mod Countdown
use tad_blockchain.Base.{ℕ, ◌-◌, Bool, Option, none, some, ltb, ◌==◌, if◌then◌else◌}
use tad_blockchain.Base.Result.{Result, ok, raise, assertion_error, uint8, uint_sub}
use tad_blockchain.Types.BlockRecord.{BlockRecord}
use tad_blockchain.Types.Constants.{ConsensusConstants}

-- The `else` of `calculate_deficit`, for the deficit of the previous block.
unfoldable pub next_deficit : ConsensusConstants → ℕ → Bool → ℕ → Result ℕ
next_deficit constants prev_deficit overflow num_finished_sub_slots =
    let minimum = constants.min_blocks_per_challenge_block in
    if prev_deficit == minimum
    then if overflow
      then if ltb 0 num_finished_sub_slots
        then uint_sub uint8 prev_deficit 1
        else uint8 prev_deficit
      else uint_sub uint8 prev_deficit 1
    else if prev_deficit == 0
    then if num_finished_sub_slots == 0
      then uint8 0
      else if num_finished_sub_slots == 1
      then if overflow then uint8 minimum else uint_sub uint8 minimum 1
      else uint_sub uint8 minimum 1
    else uint_sub uint8 prev_deficit 1

unfoldable pub calculate_deficit : ConsensusConstants → ℕ → Option BlockRecord → Bool → ℕ → Result ℕ
unfolding next_deficit
calculate_deficit constants height prev_b overflow num_finished_sub_slots =
    if height == 0 then uint_sub uint8 constants.min_blocks_per_challenge_block 1 else elim prev_b [
      | none ↦ raise assertion_error
      | some prev ↦ next_deficit constants prev.deficit overflow num_finished_sub_slots
    ]
