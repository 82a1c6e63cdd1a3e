-- ===== src/Consensus/Blockchain/Collect.antt =====
-- The loop that collects the blocks of the new chain ends.
use tad_blockchain.Base.{
  ℕ, zero, suc, ◌+◌, ◌<◌, ◌≡◌, refl, sym, ap, ◌∙◌, some, arith, ◌==◌, Bool-cases, inl, inr,
}
use tad_blockchain.Base.Dict.{lookup}
use tad_blockchain.Base.Int.{ℤ, pos, negsuc}
use tad_blockchain.Base.Result.{Result, ok, raise, key_error, Returns, Returns-bind, IfReturns}
use tad_blockchain.Consensus.Blockchain.{Blockchain}
use tad_blockchain.Consensus.Blockchain.Follow.{
  SameHeights, UpTo, found_entry, blocks_to_add-Followed,
}
use tad_blockchain.Consensus.Blockchain.Path.{rows_of, Followed, IsPeak}
use tad_blockchain.Consensus.Blockchain.Branch.{
  at_fork, blocks_to_add, follow_records, records_of, reversed,
}
use tad_blockchain.Consensus.Chain.{IsChain, IsStored}
use tad_blockchain.Consensus.Chain.Ancestry.{parent, ancestor_at}
use tad_blockchain.Types.Block.{FullBlock}
use tad_blockchain.Types.BlockRecord.{BlockRecord}
use tad_blockchain.Types.Bytes.{Bytes32}

-- Every stored record has its full block.
abbrev pub HasFullBlocks : Blockchain → Type 0
HasFullBlocks s =
    (h : Bytes32) (r : BlockRecord)
    → lookup h s.block_store.block_rows ≡ some r
    → (full : FullBlock) × (lookup h s.block_store.full_blocks ≡ some full)

-- A call that returns has what holds where it returns.
Returns-and :
    {A : Type 0} (m : Result A) (P : A → Type 0)
    → Returns m (λ a. Unit)
    → IfReturns m P
    → Returns m P
Returns-and (ok a) P h p = p
Returns-and (raise e) P h p = absurd h

-- The test of the loop reads a hash that is there.
at_fork-Returns :
    (s : Blockchain) (p : BlockRecord) (fork_height : ℤ) (curr : Bytes32)
    → IsChain (rows_of s.block_store.block_rows)
    → IsPeak s p
    → UpTo fork_height p
    → Returns (at_fork s fork_height curr) (λ found. Unit)
at_fork-Returns s p (negsuc n) curr chain peak le = tt
at_fork-Returns s p (pos height) curr chain peak le =
    let (c, reached, stored_c, at_c) =
      ancestor_at (rows_of s.block_store.block_rows) chain p height peak.stored le in
    let there : lookup height s.heights_to_hashes ≡ some c.header_hash =
      ap (λ k. lookup k s.heights_to_hashes) (sym at_c) ∙ peak.followed c reached in
    rw there tt

module _ (s : Blockchain) (p : BlockRecord) (fork_height : ℤ)
    (chain : IsChain (rows_of s.block_store.block_rows)) (heights : SameHeights s)
    (fulls : HasFullBlocks s) (peak : IsPeak s p) (le : UpTo fork_height p) where
  blocks_to_add-Returns :
      (fuel : ℕ) (b : BlockRecord) (curr : Bytes32)
      → IsStored (rows_of s.block_store.block_rows) b
      → b.header_hash ≡ curr
      → b.height < fuel
      → Returns (blocks_to_add s fuel fork_height curr) (λ to_add. Unit)
  unfolding blocks_to_add
  blocks_to_add-Returns zero b curr stored at enough = absurd (omega arith)
  blocks_to_add-Returns (suc fuel) b curr stored at enough =
      let rows = s.block_store.block_rows in
      let row : lookup curr rows ≡ some b =
        ap (λ h. lookup h rows) (sym at)
        ∙ found_entry (lookup b.header_hash rows) key_error b stored in
      let (full, in_full) = fulls curr b row in
      let same : full.height ≡ b.height = heights curr full b in_full row in
      Returns-bind (at_fork s fork_height curr) _ (λ found. Unit) _
        (at_fork-Returns s p fork_height curr chain peak le)
        (λ found any. elim (Bool-cases found) [
          | inl arrives ↦ rw arrives tt
          | inr goes_on ↦
              rw (goes_on, in_full, row)
                (elim (Bool-cases (full.height == 0)) [
                  | inl root ↦ rw root tt
                  | inr above ↦ rw above (
                      let (q, found_q, stored_q, below) =
                        parent (rows_of rows) chain b stored (ground (arith, above, same)) in
                      Returns-bind (blocks_to_add s fuel fork_height b.prev_hash) _ (λ to_add. Unit)
                        _
                        (blocks_to_add-Returns fuel q b.prev_hash stored_q
                          (chain.named b.prev_hash q found_q) (omega (arith, below, enough)))
                        (λ rest ended. tt))
                ])
        ])

  -- With as many rounds as the block has blocks before it, and one more, the loop ends, and putting in
  -- the records that it collects gives, under the height of the block and of each block before it, that
  -- block's hash; of the heights above the block nothing is said. The block is stored, each stored
  -- record has its full block of the same height, and the fork is at most at the height of the peak.
  pub blocks_to_add-ends :
      (b : BlockRecord)
      → IsStored (rows_of s.block_store.block_rows) b
      → Returns (blocks_to_add s (b.height + 1) fork_height b.header_hash) (λ to_add.
        Followed s.block_store.block_rows
          (follow_records (records_of (reversed to_add)) s.heights_to_hashes)
          b)
  blocks_to_add-ends b stored =
      Returns-and (blocks_to_add s (b.height + 1) fork_height b.header_hash) _
        (blocks_to_add-Returns (b.height + 1) b b.header_hash stored refl (omega arith))
        (blocks_to_add-Followed s p b (b.height + 1) fork_height chain heights peak stored le)
