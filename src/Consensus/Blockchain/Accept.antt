-- ===== src/Consensus/Blockchain/Accept.antt =====
-- Taking a block leaves the heavier block as the peak, with the hashes and the coin store of its chain.
use mathlib.Core.Path.{subst}
use tad_blockchain.Base.{
  ℕ, ◌<◌, ◌≤◌, ◌≡◌, ◌⊎◌, refl, sym, ap, ◌∙◌, true, false, Option, arith, ltb, ◌==◌, Bool-cases, inl,
  inr,
}
use tad_blockchain.Base.Dict.{lookup}
use tad_blockchain.Base.Int.{ℤ}
use tad_blockchain.Base.Result.{
  ok, ◌>>=◌, IfReturns, IfReturns-bind, IfReturns-both, IfReturns-mono,
}
use tad_blockchain.Consensus.Blockchain.{Blockchain, add_block_record}
use tad_blockchain.Consensus.Blockchain.Follow.{SameHeights, UpTo, change_peak-IsPeak}
use tad_blockchain.Consensus.Blockchain.Ledger.{AboveStays, SameTables, change_peak-IsLedger}
use tad_blockchain.Consensus.Blockchain.Path.{rows_of, IsPeak}
use tad_blockchain.Consensus.Blockchain.Branch.{fork_point}
use tad_blockchain.Consensus.Blockchain.Peak.{
  PeakChange, no_change, accept_block, reconsider_peak, update_cache, change_peak,
}
use tad_blockchain.Consensus.Body.Fork.{BodyStores}
use tad_blockchain.Consensus.Chain.{IsChain}
use tad_blockchain.Consensus.Cost.{NpcResult}
use tad_blockchain.FullNode.CoinStore.Heights.{AtMost}
use tad_blockchain.Types.Block.{FullBlock}
use tad_blockchain.Types.BlockRecord.{BlockRecord}
use tad_blockchain.Types.Constants.{ConsensusConstants}
use tad_blockchain.Types.Primitives.{Primitives}
use tad_blockchain.Consensus.Blockchain.Coins.{IsLedger}
use tad_blockchain.Consensus.Blockchain.Stored.{
  with_block, IsNew, block-IsStored, before-IsPeak, orphan-IsPeak, heights_after, get_peak_lem,
}

-- The fork is at most at the heights of both blocks.
abbrev pub IsBelow : BlockRecord → BlockRecord → ℤ → Type 0
IsBelow p b fork_height = UpTo fork_height p × AtMost b.height fork_height

-- The blockchain with the peak: its tables are a chain whose full blocks have the heights of their
-- records, and the coin store is one of blocks up to the peak.
pub record IsSound (primitives : Primitives) (s : Blockchain) (p : BlockRecord) : Type 0 where
  pub chain : IsChain (rows_of s.block_store.block_rows)
  pub heights : SameHeights s
  pub peak : IsPeak s p
  pub ledger : IsLedger primitives p.height s.coin_store

-- The outcome: the old peak stays with all hashes by height, or the new block is heavier and is the
-- peak, and the hashes above it are those of before.
abbrev pub HeaviestStays :
    Primitives → Blockchain → BlockRecord → BlockRecord → PeakChange × Blockchain → Type 0
HeaviestStays primitives s p b (change, after) =
    ((change ≡ no_change)
      × IsSound primitives after p
      × (after.heights_to_hashes ≡ s.heights_to_hashes)
      × (0 < b.height → b.weight ≤ p.weight))
    ⊎ ((p.weight < b.weight) × IsSound primitives after b × AboveStays s b after)

SameHeights-SameTables :
    (s after : Blockchain) → SameTables s after → SameHeights s → SameHeights after
SameHeights-SameTables s after (rows, full_blocks) heights h full r in_full in_rows =
    heights h full r (ap (λ m. lookup h m) (sym full_blocks) ∙ in_full)
      (ap (λ m. lookup h m) (sym rows) ∙ in_rows)

-- The block that does not become the peak is in the tables.
orphan-IsSound :
    (primitives : Primitives) (s : Blockchain) (p b : BlockRecord) (block : FullBlock)
    → IsSound primitives s p
    → IsNew s block b
    → IsSound primitives (update_cache b no_change (with_block s block b)) p
unfolding add_block_record
orphan-IsSound primitives s p b block sound new = record {
  chain = (block-IsStored s block b sound.chain new).0;
  heights = heights_after s block b sound.chain new sound.heights;
  peak = orphan-IsPeak s block b sound.chain new p sound.peak;
  ledger = sound.ledger;
}

module _ (primitives : Primitives) (constants : ConsensusConstants) (stores : BodyStores) where
  peak-IsSound :
      (s : Blockchain) (p b : BlockRecord) (block : FullBlock) (fork_point_with_peak : Option ℕ)
      (npc_result : Option NpcResult)
      → IsSound primitives s p
      → IsNew s block b
      → IfReturns (fork_point s b p fork_point_with_peak) (IsBelow p b)
      → IfReturns
          (change_peak primitives constants stores
            (with_block s block b)
            b
            p
            fork_point_with_peak
            npc_result)
          (λ r.
            let after = update_cache b r.0 r.1 in IsSound primitives after b × AboveStays s b after)
  unfolding fork_point
  peak-IsSound s p b block fork_point_with_peak npc_result sound new le =
      let stored = with_block s block b in
      let (chain, in_rows, before) = block-IsStored s block b sound.chain new in
      let heights = heights_after s block b sound.chain new sound.heights in
      let m = change_peak primitives constants stores stored b p fork_point_with_peak npc_result in
      let fork = fork_point s b p fork_point_with_peak in
      IfReturns-mono m _ _
        (IfReturns-both m _ _
          (change_peak-IsPeak primitives constants stores stored p b fork_point_with_peak npc_result
            chain heights (before-IsPeak s block b sound.chain new p sound.peak) in_rows
            (IfReturns-mono fork (IsBelow p b) _ le (λ f below. below.0)))
          (change_peak-IsLedger primitives constants stores stored p b fork_point_with_peak
            npc_result chain heights in_rows sound.ledger
            (IfReturns-mono fork (IsBelow p b) _ le (λ f below. below.1))))
        (λ r (peak, (ledger, above, same)). (
          record {
            chain = subst (λ rows. IsChain (rows_of rows)) (sym same.0) chain;
            heights = SameHeights-SameTables stored (update_cache b r.0 r.1) same heights;
            peak = peak;
            ledger = ledger;
          },
          above,
        ))

  weigh :
      (s : Blockchain) (p b : BlockRecord) (block : FullBlock) (fork_point_with_peak : Option ℕ)
      (npc_result : Option NpcResult)
      → IsSound primitives s p
      → IsNew s block b
      → IfReturns (fork_point s b p fork_point_with_peak) (IsBelow p b)
      → IfReturns
          (◌>>=◌ {A = PeakChange × Blockchain}
            (elim (ltb p.weight b.weight) [
              | true ↦
                  change_peak primitives constants stores
                    (with_block s block b)
                    b
                    p
                    fork_point_with_peak
                    npc_result
              | false ↦ ok (no_change, with_block s block b)
            ])
            (λ r. ok (r.0, update_cache b r.0 r.1)))
          (HeaviestStays primitives s p b)
  unfolding fork_point add_block_record
  weigh s p b block fork_point_with_peak npc_result sound new le =
      elim (Bool-cases (ltb p.weight b.weight)) [
        | inl heavier ↦ rw heavier (
            IfReturns-bind
              (change_peak primitives constants stores (with_block s block b) b p
                fork_point_with_peak npc_result)
              _ _ _ (peak-IsSound s p b block fork_point_with_peak npc_result sound new le)
              (λ r changed. inr (ground (arith, heavier), changed.0, changed.1)))
        | inr lighter ↦ rw lighter (
            inl (
              refl,
              orphan-IsSound primitives s p b block sound new,
              refl,
              λ positive. ground (arith, lighter),
            ))
      ]

  -- A block above the height 0 that is accepted becomes the peak where it is heavier than the peak
  -- before, and else the peak stays, as it does for a block at the height 0. The blockchain stays
  -- sound: the peak is in the cache and in the table, where it is marked; under its height and the
  -- height of each block before it stands that block's hash; a block of the table above the height 0
  -- has its parent there, one height below, and its full block, where one is stored, has its height;
  -- the cache of the coin store agrees with its table, whose rows are of heights up to that of the
  -- peak. The hashes by height do not change where the peak stays; above a new peak, where they may be
  -- those of a former peak, they stay.
  -- Conditions: the blockchain is sound before, the block is new, has the height of its record and has
  -- its parent in the table, one height below, and the fork point that is given or found is at most at
  -- the heights of the peak and of the block.
  pub accept_block-HeaviestStays :
      (s : Blockchain) (p b : BlockRecord) (block : FullBlock) (fork_point_with_peak : Option ℕ)
      (npc_result : Option NpcResult)
      → IsSound primitives s p
      → IsNew s block b
      → IfReturns (fork_point s b p fork_point_with_peak) (IsBelow p b)
      → IfReturns
          (accept_block primitives constants stores s block b fork_point_with_peak npc_result)
          (HeaviestStays primitives s p b)
  unfolding accept_block reconsider_peak fork_point add_block_record
  accept_block-HeaviestStays s p b block fork_point_with_peak npc_result sound new le =
      rw (get_peak_lem s block b sound.chain new p sound.peak)
        (elim (Bool-cases (block.height == 0)) [
          | inl first ↦ rw first (
              inl (
                refl,
                orphan-IsSound primitives s p b block sound new,
                refl,
                λ above. absurd (ground (arith, first, above, new.height)),
              ))
          | inr above ↦ rw above (weigh s p b block fork_point_with_peak npc_result sound new le)
        ])
