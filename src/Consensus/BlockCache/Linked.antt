-- ===== src/Consensus/BlockCache/Linked.antt =====
-- A cache that is filled from the bottom is a store of linked blocks.
use mathlib.Core.Path.{subst}
use tad_blockchain.Base.{
  ℕ, ◌+◌, ◌<◌, ◌≡◌, ◌⊎◌, refl, none, arith, Bool-cases, sym, ap, ◌∙◌, if◌then◌else◌, inl, inr, ◌==◌,
  ==_iff,
}
use tad_blockchain.Base.Dict.{lookup, lookup-insert}
use tad_blockchain.Base.Result.{ok, or_raise, key_error, Returns, Returns-ok}
use tad_blockchain.Consensus.BlockCache.{BlockCache, block_record, interface, add_block_record}
use tad_blockchain.Base.Result.{ok-injective}
use tad_blockchain.Consensus.Chain.{IsChain, IsStored}
use tad_blockchain.Types.BlockRecord.{BlockRecord}

module _ (cache : BlockCache) (b : BlockRecord) where
  added :
      (h : ℕ)
      → block_record (add_block_record cache b) h
        ≡ (if h == b.header_hash then ok b else block_record cache h)
  unfolding add_block_record
  added h = ground (arith, lookup-insert h b.header_hash b cache.block_records)

  module _ (fresh : lookup b.header_hash cache.block_records ≡ none) where
    kept :
        (h : ℕ) (P : BlockRecord → Type 0)
        → Returns (block_record cache h) P
        → Returns (block_record (add_block_record cache b) h) P
    kept h P r = elim (Bool-cases (h == b.header_hash)) [
      | inl same ↦
          let at : h ≡ b.header_hash = (==_iff h b.header_hash).0 same in
          absurd (
            subst (λ o. Returns (or_raise o key_error) P)
              (ap (λ k. lookup k cache.block_records) at ∙ fresh) r)
      | inr other ↦
          subst (λ m. Returns m P)
            (sym (added h ∙ ap (λ t. if t then ok b else block_record cache h) other)) r
    ]

    kept_ok :
        (h : ℕ) (c : BlockRecord)
        → block_record cache h ≡ ok c
        → block_record (add_block_record cache b) h ≡ ok c
    kept_ok h c e =
        let (d, found, same) =
          Returns-ok (block_record (add_block_record cache b) h) (λ d. d ≡ c)
            (kept h (λ d. d ≡ c) (subst (λ m. Returns m (λ d. d ≡ c)) (sym e) refl)) in
        found ∙ ap ok same

    added_self : block_record (add_block_record cache b) b.header_hash ≡ ok b
    added_self = ground (arith, added b.header_hash)

    -- What is found after the addition is the new block or was found before.
    found_after :
        (h : ℕ) (c : BlockRecord)
        → block_record (add_block_record cache b) h ≡ ok c
        → (h ≡ b.header_hash) × (c ≡ b) ⊎ (block_record cache h ≡ ok c)
    found_after h c e = elim (Bool-cases (h == b.header_hash)) [
      | inl same ↦
          let at : h ≡ b.header_hash = (==_iff h b.header_hash).0 same in
          let new : ok b ≡ ok c =
            sym (added h ∙ ap (λ t. if t then ok b else block_record cache h) same) ∙ e in
          inl (at, ok-injective (sym new))
      | inr other ↦
          inr (sym (added h ∙ ap (λ t. if t then ok b else block_record cache h) other) ∙ e)
    ]

    module _ (chain : IsChain (interface cache))
        (below : 0 < b.height
          → Returns (block_record cache b.prev_hash) (λ p. p.height + 1 ≡ b.height)) where
      named_after :
          (h : ℕ) (c : BlockRecord)
          → block_record (add_block_record cache b) h ≡ ok c
          → c.header_hash ≡ h
      named_after h c e = elim (found_after h c e) [
        | inl (at, new) ↦ ap (λ (r : BlockRecord). r.header_hash) new ∙ sym at
        | inr old ↦ chain.named h c old
      ]

      linked_after :
          (c : BlockRecord)
          → block_record (add_block_record cache b) c.header_hash ≡ ok c
          → 0 < c.height
          → Returns
              (block_record (add_block_record cache b) c.prev_hash)
              (λ p. p.height + 1 ≡ c.height)
      linked_after c e above = elim (found_after c.header_hash c e) [
        | inl (at, new) ↦ kept c.prev_hash _ (rw new (below (rw (← new) above)))
        | inr old ↦ kept c.prev_hash _ (chain.linked c old above)
      ]

-- A new block whose parent is in the cache, one height below, can be added: what the cache held
-- before is found as before, and the cache is again a store of linked blocks.
pub add_block_record-IsChain :
    (cache : BlockCache) (b : BlockRecord)
    → IsChain (interface cache)
    → lookup b.header_hash cache.block_records ≡ none
    → (0 < b.height → Returns (block_record cache b.prev_hash) (λ p. p.height + 1 ≡ b.height))
    → IsChain (interface (add_block_record cache b))
      × IsStored (interface (add_block_record cache b)) b
      × ((c : BlockRecord)
          → IsStored (interface cache) c
          → IsStored (interface (add_block_record cache b)) c)
add_block_record-IsChain cache b chain fresh below = (
  record {
    named = named_after cache b fresh chain below;
    linked = linked_after cache b fresh chain below;
  },
  added_self cache b fresh,
  λ c stored. kept_ok cache b fresh c.header_hash c stored,
)
