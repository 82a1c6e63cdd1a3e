-- ===== src/Consensus/Blockchain/Ledger.antt =====
-- Changing the peak: the coin store, the hashes above the peak and the tables of blocks.
use tad_blockchain.Base.{ℕ, ◌+◌, ◌<◌, ◌≡◌, refl, ap, ◌∙◌, Option, List, arith}
use tad_blockchain.Base.Dict.{lookup}
use tad_blockchain.Base.Int.{ℤ}
use tad_blockchain.Base.Result.{
  IfReturns, IfReturns-bind, IfReturns-self, IfReturns-mono, IfReturns-ok,
}
use tad_blockchain.Consensus.Blockchain.{Blockchain, add_block_record}
use tad_blockchain.Consensus.Blockchain.Branch.{
  blocks_to_add, fork_point, records_of, reversed, follow_records,
}
use tad_blockchain.Consensus.Blockchain.Changes.{apply_blocks}
use tad_blockchain.Consensus.Blockchain.Follow.{SameHeights, blocks_to_add-Spine, AtFork}
use tad_blockchain.Consensus.Blockchain.Path.{
  rows_of, AllUpTo, AllUpTo-reversed, Spine-AllUpTo, follow_back-above, follow_records-reversed,
}
use tad_blockchain.Consensus.Blockchain.Peak.{change_peak, roll_back, update_cache}
use tad_blockchain.Consensus.Body.Fork.{BodyStores}
use tad_blockchain.Consensus.Chain.{IsChain, IsStored}
use tad_blockchain.Consensus.Cost.{NpcResult}
use tad_blockchain.FullNode.CoinStore.Heights.{AtMost}
use tad_blockchain.Types.Block.{FullBlock}
use tad_blockchain.Types.BlockRecord.{BlockRecord}
use tad_blockchain.Types.Constants.{ConsensusConstants}
use tad_blockchain.Types.Primitives.{Primitives}
use tad_blockchain.Consensus.Blockchain.Coins.{IsLedger, apply_blocks-IsLedger, roll_back-IsLedger}

-- The hashes above the block are those of before.
abbrev pub AboveStays : Blockchain → BlockRecord → Blockchain → Type 0
AboveStays before b after =
    (k : ℕ) → b.height < k → lookup k after.heights_to_hashes ≡ lookup k before.heights_to_hashes

-- The tables of blocks are those of before, but for the mark.
abbrev pub SameTables : Blockchain → Blockchain → Type 0
SameTables before after =
    (after.block_store.block_rows ≡ before.block_store.block_rows)
    × (after.block_store.full_blocks ≡ before.block_store.full_blocks)

-- The blocks that are put in are at heights up to that of the new peak.
blocks_to_add-AllUpTo :
    (s : Blockchain) (b : BlockRecord) (fuel : ℕ) (fork_height : ℤ)
    → IsChain (rows_of s.block_store.block_rows)
    → SameHeights s
    → IsStored (rows_of s.block_store.block_rows) b
    → IfReturns (blocks_to_add s fuel fork_height b.header_hash) (AllUpTo b.height)
blocks_to_add-AllUpTo s b fuel fork_height chain heights stored =
    IfReturns-mono (blocks_to_add s fuel fork_height b.header_hash) _ _
      (blocks_to_add-Spine s chain heights fork_height fuel b b.header_hash stored refl)
      (λ to_add spine.
        Spine-AllUpTo s.block_store.block_rows chain b.height (AtFork s fork_height) b to_add stored
          (omega arith) spine)

AboveStays-reversed :
    (s : Blockchain) (b : BlockRecord) (pairs : List (FullBlock × BlockRecord)) (k : ℕ)
    → AllUpTo b.height pairs
    → b.height < k
    → lookup k (follow_records (records_of (reversed pairs)) s.heights_to_hashes)
      ≡ lookup k s.heights_to_hashes
AboveStays-reversed s b pairs k low above =
    ap (λ m. lookup k m) (follow_records-reversed pairs s.heights_to_hashes)
    ∙ follow_back-above b.height k pairs s.heights_to_hashes low above

module _ (primitives : Primitives) (constants : ConsensusConstants) (stores : BodyStores) where
  -- A heavier block leaves the hashes above it and the tables of blocks.
  pub change_peak-IsLedger :
      (s : Blockchain) (p b : BlockRecord) (fork_point_with_peak : Option ℕ)
      (npc_result : Option NpcResult)
      → IsChain (rows_of s.block_store.block_rows)
      → SameHeights s
      → IsStored (rows_of s.block_store.block_rows) b
      → IsLedger primitives p.height s.coin_store
      → IfReturns (fork_point s b p fork_point_with_peak) (AtMost b.height)
      → IfReturns
          (change_peak primitives constants stores s b p fork_point_with_peak npc_result)
          (λ r.
            let after = update_cache b r.0 r.1 in
            IsLedger primitives b.height after.coin_store
            × AboveStays s b after
            × SameTables s after)
  unfolding change_peak add_block_record
  change_peak-IsLedger s p b fork_point_with_peak npc_result chain heights stored ledger le =
      let m = fork_point s b p fork_point_with_peak in
      IfReturns-bind m _ _ _ (IfReturns-self m) (λ fork_height at.
        let low : AtMost b.height fork_height =
          IfReturns-ok m fork_height (AtMost b.height) at le in
        IfReturns-bind (roll_back primitives constants stores s b p fork_height) _ _ _
          (roll_back-IsLedger primitives constants stores b.height s p b fork_point_with_peak
            fork_height at low ledger)
          (λ rolled kept.
            IfReturns-bind (blocks_to_add s (b.height + 1) fork_height b.header_hash) _ _ _
              (blocks_to_add-AllUpTo s b (b.height + 1) fork_height chain heights stored)
              (λ to_add up_to.
                IfReturns-bind
                  (apply_blocks primitives constants stores b npc_result (reversed to_add) _) _ _ _
                  (apply_blocks-IsLedger primitives constants stores b.height b npc_result
                    (reversed to_add) _ (AllUpTo-reversed b.height to_add up_to) kept)
                  (λ applied applied_kept. (
                    applied_kept,
                    λ k above. AboveStays-reversed s b to_add k up_to above,
                    (refl, refl),
                  )))))
