-- ===== src/Consensus/BlockChallenge.antt =====
-- tad/consensus/get_block_challenge.py and tad/util/prev_transaction_block.py: the challenge that a
-- block answers, and the transaction block before it.
pub mod SlotStart
use tad_blockchain.Base.{
  ℕ, zero, suc, ◌+◌, ◌-◌, ◌/◌, Bool, true, false, not, ◌&&◌, ◌||◌, none, some, List, [], ◌∷◌, ◌++◌,
  reverse, ltb, ◌==◌, if◌then◌else◌, length, get_elem?,
}
use tad_blockchain.Base.Result.{
  Result, ok, raise, index_error, assertion_error, out_of_fuel, ◌>>=◌, ◌>>◌, assert, or_raise,
}
use tad_blockchain.Consensus.Chain.{BlockchainInterface}
use tad_blockchain.Types.BlockRecord.{BlockRecord, first_in_sub_slot, is_transaction_block, is_some}
use tad_blockchain.Types.Bytes.{Bytes32}
use tad_blockchain.Types.Constants.{ConsensusConstants}

-- Of a finished sub-slot the hash of its challenge chain (`challenge_chain.get_hash()`) and the
-- challenge of the VDF at its end.
pub record FinishedSubSlot : Type 0 where
  pub challenge_chain_hash : Bytes32
  pub end_of_slot_challenge : Bytes32

-- What these functions read of a block, finished or not.
pub record HeaderBlock : Type 0 where
  pub finished_sub_slots : List FinishedSubSlot
  pub prev_header_hash : Bytes32
  pub total_iters : ℕ

-- `l[-1]`
abbrev pub last {ℓ} : {A : Type ℓ} → List A → Result A
last l = or_raise (get_elem? (reverse l) 0) index_error

-- An overflow block less than half a sub-slot before the header block. (A difference that is
-- negative is less as well.)
abbrev pub is_close : HeaderBlock → ℕ → BlockRecord → Bool
is_close header_block sub_slot_iters curr =
    curr.overflow && ltb header_block.total_iters (curr.total_iters + sub_slot_iters / 2)

module _ (blocks : BlockchainInterface) where
  open blocks use {block_record}

  -- The loop back to the start of the sub-slot, with what `seen_overflow_block` is there.
  unfoldable pub find_slot_start :
      ℕ → HeaderBlock → ℕ → BlockRecord → Bool → Result (BlockRecord × Bool)
  find_slot_start zero header_block sub_slot_iters curr seen_overflow_block = raise out_of_fuel
  find_slot_start (suc fuel) header_block sub_slot_iters curr seen_overflow_block =
      elim (first_in_sub_slot curr || curr.height == 0) [
        | true ↦ ok (curr, seen_overflow_block)
        | false ↦ do
          let seen = if is_close header_block sub_slot_iters curr then true else seen_overflow_block
          curr' ← block_record curr.prev_hash
          find_slot_start fuel header_block sub_slot_iters curr' seen
      ]

  unfoldable pub final_eos_is_already_included : HeaderBlock → ℕ → Result Bool
  unfolding find_slot_start
  final_eos_is_already_included header_block sub_slot_iters = elim header_block.finished_sub_slots [
    | _ ∷ _ ↦ ok false
    | [] ↦ do
      curr ← block_record header_block.prev_header_hash
      (start, seen_overflow_block) ←
          find_slot_start (curr.height + 1) header_block sub_slot_iters curr
            (is_close header_block sub_slot_iters curr)
      ok (first_in_sub_slot start && seen_overflow_block)
  ]

  -- The hashes of the finished slots of a block, the latest first; the assertion is that they are
  -- there.
  abbrev pub slot_hashes : BlockRecord → Result (List Bytes32)
  slot_hashes curr =
      or_raise curr.finished_challenge_slot_hashes assertion_error >>= λ l. ok (reverse l)

  -- The loop that looks for the challenges back along the parents.
  unfoldable pub look_for_challenges : ℕ → ℕ → List Bytes32 → BlockRecord → Result (List Bytes32)
  look_for_challenges zero wanted hashes curr = raise out_of_fuel
  look_for_challenges (suc fuel) wanted hashes curr = elim (ltb (length hashes) wanted) [
    | false ↦ ok hashes
    | true ↦ do
      found ← if first_in_sub_slot curr then slot_hashes curr else ok []
      let hashes' = hashes ++ found
      elim (curr.height == 0) [
        | true ↦ do first ← slot_hashes curr; assert (ltb 0 (length first)); ok hashes'
        | false ↦ do
          curr' ← block_record curr.prev_hash
          look_for_challenges fuel wanted hashes' curr'
      ]
  ]

  -- How many challenges to look for.
  abbrev pub challenges_to_look_for : Bool → Bool → ℕ
  challenges_to_look_for overflow skip = if overflow && not skip then 2 else 1

  unfoldable pub get_block_challenge :
      ConsensusConstants → HeaderBlock → Bool → Bool → Bool → Result Bytes32
  unfolding look_for_challenges
  get_block_challenge constants header_block genesis_block overflow
        skip_overflow_last_ss_validation =
      elim header_block.finished_sub_slots [
        | _ ∷ _ ↦ do
          slot ← last header_block.finished_sub_slots
          if overflow && not skip_overflow_last_ss_validation
              then ok slot.end_of_slot_challenge
              else ok slot.challenge_chain_hash
        | [] ↦ if genesis_block then ok constants.genesis_challenge else do
          let wanted = challenges_to_look_for overflow skip_overflow_last_ss_validation
          curr ← block_record header_block.prev_header_hash
          hashes ← look_for_challenges (curr.height + 1) wanted [] curr
          or_raise (get_elem? hashes (wanted - 1)) index_error
      ]

  -- The loop back to a transaction block; where none is found the look-up of a parent raises.
  unfoldable pub back_to_transaction_block : ℕ → BlockRecord → Result BlockRecord
  back_to_transaction_block zero curr = raise out_of_fuel
  back_to_transaction_block (suc fuel) curr = elim (is_transaction_block curr) [
    | true ↦ ok curr
    | false ↦ do curr' ← block_record curr.prev_hash; back_to_transaction_block fuel curr'
  ]

  unfoldable pub get_prev_transaction_block : BlockRecord → ℕ → Result (Bool × BlockRecord)
  unfolding back_to_transaction_block
  get_prev_transaction_block curr total_iters_sp = do
    found ← back_to_transaction_block (curr.height + 2) curr
    if ltb found.total_iters total_iters_sp then ok (true, found) else ok (false, curr)
