-- ===== src/Consensus/Difficulty/Next.antt =====
-- _get_next_sub_slot_iters, _get_next_difficulty and get_next_sub_slot_iters_and_difficulty
-- (tad/consensus/difficulty_adjustment.py).
use tad_blockchain.Base.{
  ℕ, zero, suc, ◌+◌, ◌-◌, ◌*◌, Bool, true, false, not, ◌||◌, Option, none, some, ltb, ◌==◌,
  if◌then◌else◌,
}
use tad_blockchain.Base.Int.{pos, sub_ℕ, ◌*ℤ◌}
use tad_blockchain.Base.Result.{
  Result, ok, raise, value_error, assertion_error, out_of_fuel, ◌>>=◌, ◌>>◌, raise_if, or_raise,
  uint32, uint64, uint_sub,
}
use tad_blockchain.Consensus.BlockIters.{sp_total_iters}
use tad_blockchain.Consensus.Chain.{BlockchainInterface}
use tad_blockchain.Consensus.Difficulty.Adjust.{
  uint64_quotient, adjust_sub_slot_iters, adjust_difficulty,
}
use tad_blockchain.Consensus.Difficulty.EpochEnd.{can_finish_sub_and_full_epoch}
use tad_blockchain.Consensus.Difficulty.Fetch.{
  get_second_to_last_transaction_block_in_previous_epoch,
}
use tad_blockchain.Types.BlockRecord.{BlockRecord, is_some, is_transaction_block}
use tad_blockchain.Types.Bytes.{Bytes32}
use tad_blockchain.Types.Constants.{ConsensusConstants}

module _ (constants : ConsensusConstants) (blocks : BlockchainInterface) where
  open blocks use {block_record, contains_block}

  -- The loop to the last transaction block before the signage point.
  unfoldable pub last_tx_block : ℕ → ℕ → BlockRecord → Result BlockRecord
  last_tx_block zero signage_point_total_iters curr = raise out_of_fuel
  last_tx_block (suc fuel) signage_point_total_iters curr =
      elim (ltb signage_point_total_iters curr.total_iters || not (is_transaction_block curr)) [
        | true ↦ do
          curr' ← block_record curr.prev_hash
          last_tx_block fuel signage_point_total_iters curr'
        | false ↦ ok curr
      ]

  -- The test for the end of an epoch, which `skip_epoch_check` passes over: whether the new
  -- epoch's values are due.
  unfoldable pub epoch_is_due : Bytes32 → ℕ → ℕ → Bool → Bool → Bool → Result Bool
  epoch_is_due prev_header_hash height deficit block_at_height_included_ses new_slot
        skip_epoch_check =
      if skip_epoch_check then ok true else do
        (_, can_finish_epoch) ←
            can_finish_sub_and_full_epoch constants blocks height (some prev_header_hash) deficit
              block_at_height_included_ses
        ok (not (not new_slot || not can_finish_epoch))

  -- The values of the new epoch, from the block before: the body after the epoch check.
  unfoldable pub new_epoch_sub_slot_iters : BlockRecord → ℕ → Result ℕ
  unfolding last_tx_block
  new_epoch_sub_slot_iters prev_b signage_point_total_iters = do
    last_block_prev ← get_second_to_last_transaction_block_in_previous_epoch blocks constants prev_b
    last_block_curr ← last_tx_block (prev_b.height + 1) signage_point_total_iters prev_b
    curr_time ← or_raise last_block_curr.timestamp assertion_error
    prev_time ← or_raise last_block_prev.timestamp assertion_error
    precise ←
        uint64_quotient
          (pos constants.sub_slot_time_target
            *ℤ sub_ℕ last_block_curr.total_iters last_block_prev.total_iters)
          (sub_ℕ curr_time prev_time)
    adjust_sub_slot_iters constants last_block_curr.sub_slot_iters precise

  unfoldable pub new_epoch_difficulty : BlockRecord → ℕ → Result ℕ
  unfolding last_tx_block
  new_epoch_difficulty prev_b signage_point_total_iters = do
    last_block_prev ← get_second_to_last_transaction_block_in_previous_epoch blocks constants prev_b
    last_block_curr ← last_tx_block (prev_b.height + 1) signage_point_total_iters prev_b
    curr_time ← or_raise last_block_curr.timestamp assertion_error
    prev_time ← or_raise last_block_prev.timestamp assertion_error
    actual_epoch_time ← uint_sub uint64 curr_time prev_time
    before ← block_record prev_b.prev_hash
    old_difficulty ← uint_sub uint64 prev_b.weight before.weight
    precise ←
        uint64_quotient
          (sub_ℕ last_block_curr.weight last_block_prev.weight
            *ℤ pos constants.sub_slot_time_target)
          (pos (constants.slot_blocks_target * actual_epoch_time))
    adjust_difficulty constants old_difficulty precise

  unfoldable pub get_next_sub_slot_iters : Bytes32 → ℕ → ℕ → ℕ → Bool → Bool → ℕ → Bool → Result ℕ
  unfolding epoch_is_due new_epoch_sub_slot_iters
  get_next_sub_slot_iters prev_header_hash height curr_sub_slot_iters deficit
        block_at_height_included_ses new_slot signage_point_total_iters skip_epoch_check =
      do
        next_height ← uint32 (height + 1)
        if ltb next_height constants.epoch_blocks
            then uint64 constants.sub_slot_iters_starting
            else do
              raise_if (not (contains_block prev_header_hash)) value_error
              prev_b ← block_record prev_header_hash
              due ←
                  epoch_is_due prev_header_hash height deficit block_at_height_included_ses new_slot
                    skip_epoch_check
              if due
                  then new_epoch_sub_slot_iters prev_b signage_point_total_iters
                  else ok curr_sub_slot_iters

  -- (Where three sub-slots exceed an epoch the source's difference is below every height, as 0 is.)
  unfoldable pub get_next_difficulty : Bytes32 → ℕ → ℕ → ℕ → Bool → Bool → ℕ → Bool → Result ℕ
  unfolding epoch_is_due new_epoch_difficulty
  get_next_difficulty prev_header_hash height current_difficulty deficit
        block_at_height_included_ses new_slot signage_point_total_iters skip_epoch_check =
      do
        next_height ← uint32 (height + 1)
        if ltb next_height (constants.epoch_blocks - 3 * constants.max_sub_slot_blocks)
            then uint64 constants.difficulty_starting
            else do
              raise_if (not (contains_block prev_header_hash)) value_error
              prev_b ← block_record prev_header_hash
              due ←
                  epoch_is_due prev_header_hash height deficit block_at_height_included_ses new_slot
                    skip_epoch_check
              if due
                  then new_epoch_difficulty prev_b signage_point_total_iters
                  else ok current_difficulty

  -- The difficulty of a block: what it adds to the weight.
  unfoldable pub difficulty_of : BlockRecord → Result ℕ
  difficulty_of prev_b =
      if not (prev_b.height == 0)
      then (do before ← block_record prev_b.prev_hash; uint_sub uint64 prev_b.weight before.weight)
      else uint64 prev_b.weight

  unfoldable pub get_next_sub_slot_iters_and_difficulty : Bool → Option BlockRecord → Result (ℕ × ℕ)
  unfolding difficulty_of get_next_sub_slot_iters get_next_difficulty
  get_next_sub_slot_iters_and_difficulty is_first_in_sub_slot none =
      ok (constants.sub_slot_iters_starting, constants.difficulty_starting)
  get_next_sub_slot_iters_and_difficulty is_first_in_sub_slot (some prev_b) = do
    prev_difficulty ← difficulty_of prev_b
    if is_some prev_b.sub_epoch_summary_included
        then ok (prev_b.sub_slot_iters, prev_difficulty)
        else do
          sp_total ← sp_total_iters prev_b constants
          difficulty ←
              get_next_difficulty prev_b.prev_hash prev_b.height prev_difficulty prev_b.deficit
                false is_first_in_sub_slot sp_total false
          sub_slot_iters ←
              get_next_sub_slot_iters prev_b.prev_hash prev_b.height prev_b.sub_slot_iters
                prev_b.deficit false is_first_in_sub_slot sp_total false
          ok (sub_slot_iters, difficulty)
