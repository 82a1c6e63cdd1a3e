-- ===== src/Consensus/Body/Empty.antt =====
-- Check 1: a block that is no transaction block has no data.
use tad_blockchain.Base.{
  ℕ, ◌+◌, ◌≡◌, refl, ap, ◌∙◌, Bool, true, not, ◌||◌, Option, none, ltb, ◌==◌, length, if◌then◌else◌,
  Bool-cases, inl, inr,
}
use tad_blockchain.Base.Result.{ok, Returns-ok}
use tad_blockchain.Consensus.Body.Foliage.{last_transaction_block, check_no_body}
use tad_blockchain.Consensus.Body.Fork.{BodyStores}
use tad_blockchain.Consensus.Body.Validate.{validate_block_body}
use tad_blockchain.Consensus.Body.Walk.{last_transaction_block-Returns}
use tad_blockchain.Consensus.Chain.{BlockchainInterface, IsChain, IsStored, Extends}
use tad_blockchain.Consensus.Cost.{NpcResult}
use tad_blockchain.Types.Block.{FullBlock}
use tad_blockchain.Types.BlockRecord.{BlockRecord, is_some, is_transaction_block}
use tad_blockchain.Types.Constants.{ConsensusConstants}
use tad_blockchain.Types.Errors.{valid, invalid, reject_if, not_block_but_has_data}
use tad_blockchain.Types.Primitives.{Primitives}

-- The data of a block that is no transaction block, and its list of references.
abbrev pub has_data : FullBlock → Bool
has_data block =
    is_some block.foliage_transaction_block
    || is_some block.transactions_info
    || is_some block.transactions_generator

abbrev pub has_refs : FullBlock → Bool
has_refs block = ltb 0 (length block.transactions_generator_ref_list)

module _ (blocks : BlockchainInterface) (chain : IsChain blocks) where
  check_no_body_lem :
      (block : FullBlock) (prev a : BlockRecord)
      → blocks.block_record block.prev_header_hash ≡ ok prev
      → Extends blocks prev a
      → is_transaction_block a ≡ true
      → check_no_body blocks block
        ≡ reject_if (has_data block || has_refs block) not_block_but_has_data
  unfolding check_no_body
  check_no_body_lem block prev a found up has =
      let stored : IsStored blocks prev =
        ap blocks.block_record (chain.named block.prev_header_hash prev found) ∙ found in
      let (t, walked, _) =
        Returns-ok (last_transaction_block blocks (prev.height + 2) prev) _
          (last_transaction_block-Returns blocks chain prev a stored up has) in
      elim (Bool-cases (has_data block)) [
        | inl full ↦ rw full refl
        | inr bare ↦ rw (bare, found, walked) refl
      ]

  -- A block that is no transaction block and follows a chain with a transaction block passes exactly
  -- where it has no transaction data and refers to no generators; otherwise the error is
  -- not_block_but_has_data.
  pub validate_block_body-has_data :
      (primitives : Primitives) (constants : ConsensusConstants) (stores : BodyStores)
      (peak : Option BlockRecord) (block : FullBlock) (height : ℕ) (fork_point_with_peak : Option ℕ)
      (npc_result : Option NpcResult) (prev a : BlockRecord)
      → block.foliage_transaction_block_hash ≡ none
      → (not block.is_full || height == block.height) ≡ true
      → blocks.block_record block.prev_header_hash ≡ ok prev
      → Extends blocks prev a
      → is_transaction_block a ≡ true
      → validate_block_body primitives constants blocks stores peak block height
          fork_point_with_peak npc_result
        ≡ (if has_data block || has_refs block then invalid not_block_but_has_data else valid none)
  unfolding validate_block_body
  validate_block_body-has_data primitives constants stores peak block height fork_point_with_peak
        npc_result prev a no_hash same found up has =
      rw (same, no_hash, check_no_body_lem block prev a found up has)
        (elim (Bool-cases (has_data block || has_refs block)) [
          | inl full ↦ rw full refl
          | inr bare ↦ rw bare refl
        ])
