-- ===== src/Consensus/Chain/Ancestry.antt =====
-- Following the parents in a store of linked blocks.
use mathlib.Core.Path.{subst}
use tad_blockchain.Base.{ℕ, zero, suc, ◌-◌, ◌+◌, ◌∙◌, ◌<◌, ◌≤◌, ◌≡◌, sym, ap, arith, refl}
use tad_blockchain.Base.Result.{ok, ok-injective, Returns-ok}
use tad_blockchain.Consensus.Chain.{BlockchainInterface, IsChain, IsStored, Extends, self, back}
use tad_blockchain.Types.BlockRecord.{BlockRecord}

module _ (blocks : BlockchainInterface) (chain : IsChain blocks) where
  open blocks use {block_record}

  pub parent :
      (b : BlockRecord)
      → IsStored blocks b
      → 0 < b.height
      → (p : BlockRecord) × (block_record b.prev_hash ≡ ok p)
        × IsStored blocks p
        × (p.height + 1 ≡ b.height)
  parent b stored pos =
      let (p, found, below) = Returns-ok (block_record b.prev_hash) _ (chain.linked b stored pos) in
      (p, found, rw (chain.named b.prev_hash p found) found, below)

  -- What a successful look-up of a parent gives.
  pub parent_found :
      (b p : BlockRecord)
      → IsStored blocks b
      → 0 < b.height
      → block_record b.prev_hash ≡ ok p
      → IsStored blocks p × (p.height + 1 ≡ b.height)
  parent_found b p stored pos found =
      let (q, found', stored', below) = parent b stored pos in
      let same : q ≡ p = ok-injective (sym found' ∙ found) in
      (subst (IsStored blocks) same stored', rw (← same) below)

  pub Extends-height-le :
      {b a : BlockRecord} → IsStored blocks b → Extends blocks b a → a.height ≤ b.height
  Extends-height-le stored self = omega arith
  Extends-height-le {b} stored (back {p = p} pos found rest) =
      let (stored', below) = parent_found b p stored pos found in
      omega (arith, Extends-height-le stored' rest)

  -- A block that is not b itself, for it is lower, is an ancestor of b's parent.
  pub Extends-parent :
      {b a : BlockRecord} (p : BlockRecord)
      → Extends blocks b a
      → block_record b.prev_hash ≡ ok p
      → a.height < b.height
      → Extends blocks p a
  Extends-parent p self found lower = absurd (omega arith)
  Extends-parent {a = a} p (back pos found' rest) found lower =
      subst (λ q. Extends blocks q a) (ok-injective (sym found' ∙ found)) rest

  -- At the height of b the only ancestor is b.
  pub Extends-same_height :
      {b a : BlockRecord} → IsStored blocks b → Extends blocks b a → a.height ≡ b.height → a ≡ b
  Extends-same_height stored self same = refl
  Extends-same_height {b} stored (back {p = p} pos found rest) same =
      let (stored', below) = parent_found b p stored pos found in
      absurd (omega (arith, Extends-height-le stored' rest))

  -- Two stored blocks with one header hash are one block.
  pub stored_unique :
      (b c : BlockRecord)
      → IsStored blocks b
      → IsStored blocks c
      → b.header_hash ≡ c.header_hash
      → b ≡ c
  stored_unique b c sb sc e = ok-injective (sym sb ∙ ap block_record e ∙ sc)

  -- A block has one ancestor at each height.
  pub Extends-unique :
      {b a c : BlockRecord}
      → IsStored blocks b
      → Extends blocks b a
      → Extends blocks b c
      → a.height ≡ c.height
      → a ≡ c
  Extends-unique stored self other same = sym (Extends-same_height stored other (sym same))
  Extends-unique {b} {a} {c} stored (back {p = p} pos found rest) other same =
      let (stored', below) = parent_found b p stored pos found in
      let low : a.height ≤ p.height = Extends-height-le stored' rest in
      Extends-unique stored' rest (Extends-parent p other found (omega arith)) same

  pub Extends-trans :
      {b a c : BlockRecord} → Extends blocks b a → Extends blocks a c → Extends blocks b c
  Extends-trans self rest = rest
  Extends-trans (back pos found first) rest = back pos found (Extends-trans first rest)

  ancestor_below :
      (b : BlockRecord) (h k : ℕ)
      → IsStored blocks b
      → b.height ≡ h + k
      → (a : BlockRecord) × Extends blocks b a × IsStored blocks a × (a.height ≡ h)
  ancestor_below b h zero stored at = (b, self, stored, omega arith)
  ancestor_below b h (suc k) stored at =
      let (p, found, stored', below) = parent b stored (omega arith) in
      let (a, reached, stored_a, at_a) = ancestor_below p h k stored' (omega arith) in
      (a, back (omega arith) found reached, stored_a, at_a)

  -- A stored block has an ancestor at every height up to its own.
  pub ancestor_at :
      (b : BlockRecord) (h : ℕ)
      → IsStored blocks b
      → h ≤ b.height
      → (a : BlockRecord) × Extends blocks b a × IsStored blocks a × (a.height ≡ h)
  ancestor_at b h stored le = ancestor_below b h (b.height - h) stored (omega arith)
