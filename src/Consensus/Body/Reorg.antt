-- ===== src/Consensus/Body/Reorg.antt =====
-- The loop that fetches the blocks of a fork ends, and the assertion after it holds.
use tad_blockchain.Base.{
  ℕ, zero, suc, ◌+◌, ◌<◌, ◌≤◌, ◌≡◌, refl, true, none, some, [], ◌∷◌, arith, ◌==◌, length,
}
use tad_blockchain.Base.Dict.{Dict, insert, lookup, lookup-insert}
use tad_blockchain.Base.Int.{pos, ltb_ℤ}
use tad_blockchain.Base.Result.{Returns, Returns-elim, Returns-mono}
use tad_blockchain.Consensus.Body.Fork.{BodyStores, fetch_reorg, expected_length}
use tad_blockchain.Types.Block.{FullBlock}
use tad_blockchain.Types.Constants.{ConsensusConstants}
use tad_blockchain.Types.Primitives.{Primitives}

length-insert_fresh :
    {V : Type 0} (key : ℕ) (value : V) (d : Dict V)
    → lookup key d ≡ none
    → length (insert key value d) ≡ suc (length d)
length-insert_fresh key value [] fresh = refl
length-insert_fresh key value (entry ∷ rest) fresh =
    ground (arith, length-insert_fresh key value rest)

-- The block is in a chain of stored blocks that goes down to height 0.
pub data IsLinked (stores : BodyStores) : FullBlock → Type 0 where
  first : {b : FullBlock} → b.height ≡ 0 → IsLinked stores b
  after :
      {b p : FullBlock}
      → stores.get_full_block b.prev_header_hash ≡ some p
      → p.height + 1 ≡ b.height
      → IsLinked stores p
      → IsLinked stores b

module _ (primitives : Primitives) (constants : ConsensusConstants) (stores : BodyStores) where
  fetch_reorg_lem :
      (fuel fork_h : ℕ) {curr : FullBlock} (reorg_blocks : Dict FullBlock)
      → IsLinked stores curr
      → curr.height < fuel
      → fork_h ≤ curr.height
      → ((h : ℕ) → h < curr.height → lookup h reorg_blocks ≡ none)
      → Returns
          (fetch_reorg primitives constants stores fuel (pos fork_h) curr reorg_blocks)
          (λ r. length r + fork_h ≡ length reorg_blocks + curr.height)
  unfolding fetch_reorg
  fetch_reorg_lem zero fork_h blocks linked low above fresh = absurd (omega arith)
  fetch_reorg_lem (suc fuel) fork_h {curr} blocks (first start) low above fresh =
      Returns-elim (ltb_ℤ (pos fork_h) (pos curr.height)) _ _ _
        (λ more. absurd (ground (arith, more))) (λ done. omega arith)
  fetch_reorg_lem (suc fuel) fork_h {curr} blocks (after {p = p} found below linked) low above
        fresh =
      Returns-elim (ltb_ℤ (pos fork_h) (pos curr.height)) _ _ _
        (λ more.
          Returns-elim (curr.height == 0) _ _ _ (λ start. absurd (ground (arith, start)))
            (λ higher. rw found (
              Returns-mono
                (fetch_reorg primitives constants stores fuel (pos fork_h) p
                  (insert p.height p blocks))
                (λ r. length r + fork_h ≡ length (insert p.height p blocks) + p.height) _
                (λ r e.
                  omega
                    (arith, length-insert_fresh p.height p blocks (fresh p.height (omega arith))))
                (fetch_reorg_lem fuel fork_h (insert p.height p blocks) linked (omega arith)
                  (ground (arith, more))
                  (λ h lower.
                    ground (arith, lookup-insert h p.height p blocks, fresh h (omega arith)))))))
        (λ done. ground (arith, done))

  -- Where the blocks before are stored down to height 0, the loop from a block above the fork point
  -- ends, with the number of blocks that the assertion after it expects.
  pub fetch_reorg-expected_length :
      (fork_h : ℕ) (prev_block : FullBlock)
      → IsLinked stores prev_block
      → fork_h ≤ prev_block.height
      → Returns
          (fetch_reorg primitives constants stores
            (prev_block.height + 2)
            (pos fork_h)
            prev_block
            [])
          (λ r.
            expected_length primitives constants stores
              (pos fork_h)
              (prev_block.height + 1)
              (length r)
            ≡ true)
  fetch_reorg-expected_length fork_h prev_block linked above =
      Returns-mono _ (λ (r : Dict FullBlock). length r + fork_h ≡ 0 + prev_block.height) _
        (λ r e. ground (arith, e))
        (fetch_reorg_lem (prev_block.height + 2) fork_h [] linked (omega arith) above
          (λ h lower. refl))
