-- ===== src/Consensus/Difficulty/Fetch.antt =====
-- _get_blocks_at_height and _get_second_to_last_transaction_block_in_previous_epoch
-- (tad/consensus/difficulty_adjustment.py).
use tad_blockchain.Base.{
  ℕ, zero, suc, ◌+◌, ◌-◌, ◌*◌, Bool, true, false, none, some, List, [], ◌∷◌, ◌++◌, reverse, ltb,
  leb, ◌==◌, if◌then◌else◌, length, get_elem?,
}
use tad_blockchain.Base.Result.{
  Result, ok, raise, index_error, out_of_fuel, ◌>>=◌, ◌>>◌, assert, or_raise, uint32, uint_sub,
  modulo,
}
use tad_blockchain.Consensus.Chain.{BlockchainInterface}
use tad_blockchain.Types.BlockRecord.{BlockRecord, is_some, is_transaction_block}
use tad_blockchain.Types.Constants.{ConsensusConstants}

module _ (blocks : BlockchainInterface) where
  open blocks use {block_record, contains_height, height_to_hash, height_to_block_record}

  -- The `for` loop over the heights from h on, with the rounds that are left.
  unfoldable pub fetch_heights : ℕ → ℕ → Result (List BlockRecord)
  fetch_heights h zero = ok []
  fetch_heights h (suc rounds) = do
    height ← uint32 h
    assert (contains_height height)
    b ← height_to_block_record height
    rest ← fetch_heights (h + 1) rounds
    ok (b ∷ rest)

  -- The `while` loop that goes back one by one; `target_blocks` holds what it has appended.
  unfoldable pub walk_back : ℕ → ℕ → ℕ → BlockRecord → List BlockRecord → Result (List BlockRecord)
  walk_back zero target_height max_num_blocks curr_b target_blocks = raise out_of_fuel
  walk_back (suc fuel) target_height max_num_blocks curr_b target_blocks =
      let target_blocks' =
        if ltb curr_b.height (target_height + max_num_blocks)
        then target_blocks ++ curr_b ∷ []
        else target_blocks in
      elim (leb target_height curr_b.height) [
        | true ↦ elim (curr_b.height == 0) [
          | true ↦ ok target_blocks'
          | false ↦ do
            curr_b' ← block_record curr_b.prev_hash
            walk_back fuel target_height max_num_blocks curr_b' target_blocks'
        ]
        | false ↦ ok target_blocks
      ]

  unfoldable pub slow_fetch : BlockRecord → ℕ → ℕ → Result (List BlockRecord)
  unfolding walk_back
  slow_fetch prev_b target_height max_num_blocks = do
    target_blocks ← walk_back (prev_b.height + 1) target_height max_num_blocks prev_b []
    ok (reverse target_blocks)

  -- `blocks.contains_height(prev_b.height)` and the comparison of the hashes under it.
  abbrev pub in_heaviest_chain : BlockRecord → Bool
  in_heaviest_chain b = elim (contains_height b.height) [
    | true ↦ elim (height_to_hash b.height) [
      | some header_hash ↦ header_hash == b.header_hash
      | none ↦ false
    ]
    | false ↦ false
  ]

  unfoldable pub get_blocks_at_height : BlockRecord → ℕ → ℕ → Result (List BlockRecord)
  unfolding fetch_heights slow_fetch
  get_blocks_at_height prev_b target_height max_num_blocks =
      if in_heaviest_chain prev_b
      then fetch_heights target_height max_num_blocks
      else slow_fetch prev_b target_height max_num_blocks

  -- `fetched_blocks[i]`
  abbrev pub fetched_at : List BlockRecord → ℕ → Result BlockRecord
  fetched_at fetched_blocks i = or_raise (get_elem? fetched_blocks i) index_error

  -- The loop that waits for the sub-epoch summary; it ends with the block before the one that
  -- includes it.
  unfoldable pub wait_for_summary :
      ℕ → List BlockRecord → ℕ → BlockRecord → BlockRecord → Result BlockRecord
  wait_for_summary zero fetched_blocks fetched_index curr_b next_b = raise out_of_fuel
  wait_for_summary (suc fuel) fetched_blocks fetched_index curr_b next_b =
      elim (is_some next_b.sub_epoch_summary_included) [
        | true ↦ ok curr_b
        | false ↦ do
          next_b' ← fetched_at fetched_blocks fetched_index
          wait_for_summary fuel fetched_blocks (fetched_index + 1) next_b next_b'
      ]

  -- The loop that goes back until `found_tx_block` is 2.
  unfoldable pub backtrack : ℕ → ℕ → BlockRecord → Result BlockRecord
  backtrack zero found_tx_block curr_b = raise out_of_fuel
  backtrack (suc fuel) found_tx_block curr_b = elim (ltb found_tx_block 2) [
    | true ↦ do
      curr_b' ← block_record curr_b.prev_hash
      backtrack fuel (if is_transaction_block curr_b' then found_tx_block + 1 else found_tx_block)
          curr_b'
    | false ↦ ok curr_b
  ]

  -- The indices that the waiting loop reads grow to the end of the list; the last loop goes back
  -- one height a round.
  unfoldable pub get_second_to_last_transaction_block_in_previous_epoch :
      ConsensusConstants → BlockRecord → Result BlockRecord
  unfolding get_blocks_at_height wait_for_summary backtrack
  get_second_to_last_transaction_block_in_previous_epoch constants last_b = do
    let max_blocks = constants.max_sub_slot_blocks
    let minimum = constants.min_blocks_per_challenge_block
    let height_in_next_epoch = last_b.height + 2 * max_blocks + minimum + 5
    rest ← modulo height_in_next_epoch constants.epoch_blocks
    height_epoch_surpass ← uint32 (height_in_next_epoch - rest)
    height_prev_epoch_surpass ← uint_sub uint32 height_epoch_surpass constants.epoch_blocks
    prev_rest ← modulo height_prev_epoch_surpass constants.epoch_blocks
    assert (prev_rest == 0)
    assert (ltb (height_in_next_epoch - height_epoch_surpass) (5 * max_blocks))
    if height_prev_epoch_surpass == 0
        then (do first_blocks ← get_blocks_at_height last_b 0 1; fetched_at first_blocks 0)
        else do
          start ← uint_sub uint32 height_prev_epoch_surpass (max_blocks + 1)
          count ← uint32 (3 * max_blocks + minimum + 3)
          fetched_blocks ← get_blocks_at_height last_b start count
          curr_b ← fetched_at fetched_blocks max_blocks
          assert (curr_b.height + 1 == height_prev_epoch_surpass)
          next_b ← fetched_at fetched_blocks (max_blocks + 1)
          assert (next_b.height == height_prev_epoch_surpass)
          last_in_epoch ←
              wait_for_summary (length fetched_blocks + 1) fetched_blocks (max_blocks + 1) curr_b
                next_b
          backtrack (last_in_epoch.height + 2) (if is_transaction_block last_in_epoch then 1 else 0)
              last_in_epoch
