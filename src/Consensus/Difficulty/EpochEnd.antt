-- ===== src/Consensus/Difficulty/EpochEnd.antt =====
-- height_can_be_first_in_epoch and can_finish_sub_and_full_epoch
-- (tad/consensus/difficulty_adjustment.py).
use tad_blockchain.Base.{
  ℕ, zero, suc, ◌+◌, ◌-◌, Bool, true, false, Option, none, some, ltb, ◌==◌, if◌then◌else◌,
}
use tad_blockchain.Base.Result.{
  Result, ok, raise, assertion_error, out_of_fuel, ◌>>=◌, or_raise, uint32, modulo,
}
use tad_blockchain.Consensus.Chain.{BlockchainInterface}
use tad_blockchain.Types.BlockRecord.{BlockRecord, is_some}
use tad_blockchain.Types.Bytes.{Bytes32}
use tad_blockchain.Types.Constants.{ConsensusConstants}

unfoldable pub height_can_be_first_in_epoch : ConsensusConstants → ℕ → Result Bool
height_can_be_first_in_epoch constants height = do
  rest ← modulo height constants.sub_epoch_blocks
  over ← modulo (height - rest) constants.epoch_blocks
  ok (over == 0)

module _ (constants : ConsensusConstants) (blocks : BlockchainInterface) where
  open blocks use {block_record}

  -- The `while` loop: whether a block after the first one of the sub-epoch includes a summary, or
  -- else where the loop stops.
  unfoldable pub find_summary : ℕ → BlockRecord → Result (Option BlockRecord)
  find_summary zero curr = raise out_of_fuel
  find_summary (suc fuel) curr = do
    rest ← modulo curr.height constants.sub_epoch_blocks
    elim (ltb 0 rest) [
      | true ↦ elim (is_some curr.sub_epoch_summary_included) [
        | true ↦ ok none
        | false ↦ do curr' ← block_record curr.prev_hash; find_summary fuel curr'
      ]
      | false ↦ ok (some curr)
    ]

  -- Whether a block of the sub-epoch, from the parent on, includes a summary.
  unfoldable pub summary_included : Bytes32 → Result Bool
  unfolding find_summary
  summary_included prev_header_hash = do
    curr ← block_record prev_header_hash
    stop ← find_summary (curr.height + 1) curr
    elim stop [ none ↦ ok true | some first ↦ ok (is_some first.sub_epoch_summary_included) ]

  -- The last line: the sub-epoch can end, and the epoch if the next height may begin one.
  unfoldable pub finish : ℕ → Result (Bool × Bool)
  finish height = do
    next_height ← uint32 (height + 1)
    first ← height_can_be_first_in_epoch constants next_height
    ok (true, first)

  -- (Where the sub-epoch is empty the source's difference of -1 is below every height, as 0 is.)
  unfoldable pub can_finish_sub_and_full_epoch :
      ℕ → Option Bytes32 → ℕ → Bool → Result (Bool × Bool)
  unfolding finish height_can_be_first_in_epoch summary_included
  can_finish_sub_and_full_epoch height prev_header_hash deficit block_at_height_included_ses =
      if ltb height (constants.sub_epoch_blocks - 1) then ok (false, false) else do
        prev ← or_raise prev_header_hash assertion_error
        if ltb 0 deficit
            then ok (false, false)
            else if block_at_height_included_ses
            then ok (false, false)
            else do
              rest ← modulo (height + 1) constants.sub_epoch_blocks
              if ltb 1 rest
                  then (do
                    included ← summary_included prev
                    if included then ok (false, false) else finish height)
                  else finish height
