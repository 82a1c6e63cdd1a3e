-- ===== src/Consensus/Blockchain/Path.antt =====
-- Under the heights of a block's chain stand the hashes of that chain, before and after the peak changes.
use mathlib.Core.Path.{subst}
use tad_blockchain.Base.{
  ℕ, ◌<◌, ◌≤◌, ◌≡◌, refl, sym, ap, ◌∙◌, false, Option-cases, none, inl, inr, if◌then◌else◌, some,
  List, [], ◌∷◌, ◌++◌, arith, ◌==◌,
}
use tad_blockchain.Base.Dict.{Dict, contains, insert, lookup, lookup-insert, lookup-insert_self}
use tad_blockchain.Base.Result.{ok, key_error, or_raise, ok-injective}
use tad_blockchain.Consensus.BlockCache.{interface}
use tad_blockchain.Consensus.Blockchain.{Blockchain}
use tad_blockchain.Consensus.Blockchain.Branch.{follow_records, records_of, reversed}
use tad_blockchain.Consensus.Chain.{BlockchainInterface, IsChain, IsStored, Extends, self, back}
use tad_blockchain.Consensus.Chain.Ancestry.{
  parent_found, Extends-height-le, Extends-same_height, stored_unique, ancestor_at, Extends-trans,
}
use tad_blockchain.Types.Block.{FullBlock}
use tad_blockchain.Types.BlockRecord.{BlockRecord}
use tad_blockchain.Types.Bytes.{Bytes32}

-- The rows of the table of block records, as a store of blocks.
abbrev pub rows_of : Dict BlockRecord → BlockchainInterface
rows_of rows =
    interface (record { block_records = rows; height_to_hash_map = []; sub_epoch_summaries = [] })

-- Under the height of the block, and of each of its ancestors, stands its hash.
abbrev pub Followed : Dict BlockRecord → Dict Bytes32 → BlockRecord → Type 0
Followed rows hashes b =
    (a : BlockRecord) → Extends (rows_of rows) b a → lookup a.height hashes ≡ some a.header_hash

-- The blockchain's peak, which is cached, stored with its chain and marked in the table.
pub record IsPeak (s : Blockchain) (p : BlockRecord) : Type 0 where
  pub height : s.peak_height ≡ some p.height
  pub cached : lookup p.header_hash s.block_records ≡ some p
  pub stored : IsStored (rows_of s.block_store.block_rows) p
  pub marked : s.block_store.peak_hash ≡ some p.header_hash
  pub followed : Followed s.block_store.block_rows s.heights_to_hashes p

-- The records put in from the last to the first.
abbrev pub follow_back : List (FullBlock × BlockRecord) → Dict Bytes32 → Dict Bytes32
follow_back [] hashes = hashes
follow_back (pair ∷ pairs) hashes =
    insert pair.1.height pair.1.header_hash (follow_back pairs hashes)

-- How the loop gets from a block to the block at the fork, or to the first block.
pub data Spine (rows : Dict BlockRecord) (stop : BlockRecord → Type 0)
    : BlockRecord → List (FullBlock × BlockRecord) → Type 0 where
  arrived : {b : BlockRecord} → stop b → Spine rows stop b []
  bottom :
      {b : BlockRecord} (full : FullBlock)
      → full.height ≡ b.height
      → b.height ≡ 0
      → Spine rows stop b ((full, b) ∷ [])
  step :
      {b p : BlockRecord} {pairs : List (FullBlock × BlockRecord)} (full : FullBlock)
      → full.height ≡ b.height
      → 0 < b.height
      → or_raise (lookup b.prev_hash rows) key_error ≡ ok p
      → Spine rows stop p pairs
      → Spine rows stop b ((full, b) ∷ pairs)

-- The mark of set_peak, where the block is stored.
pub set_peak-marked :
    (rows : Dict BlockRecord) (b : BlockRecord)
    → IsStored (rows_of rows) b
    → (if contains b.header_hash rows then some b.header_hash else none) ≡ some b.header_hash
set_peak-marked rows b stored = elim (Option-cases (lookup b.header_hash rows)) [
  | inl missing ↦
      let none_there : or_raise none key_error ≡ ok b =
        ap (λ e. or_raise e key_error) (sym missing) ∙ stored in
      absurd cc
  | inr (r, found) ↦ rw (contains, found) refl
]

-- The blocks and their records are at heights up to the bound.
abbrev pub AllUpTo : ℕ → List (FullBlock × BlockRecord) → Type 0
AllUpTo h [] = Unit
AllUpTo h (pair ∷ pairs) = ((pair.0.height ≤ h) × (pair.1.height ≤ h)) × AllUpTo h pairs

AllUpTo-append :
    (h : ℕ) (front others : List (FullBlock × BlockRecord))
    → AllUpTo h front
    → AllUpTo h others
    → AllUpTo h (front ++ others)
AllUpTo-append h [] others low low' = low'
AllUpTo-append h (pair ∷ front) others low low' = (low.0, AllUpTo-append h front others low.1 low')

pub AllUpTo-reversed :
    (h : ℕ) (pairs : List (FullBlock × BlockRecord)) → AllUpTo h pairs → AllUpTo h (reversed pairs)
AllUpTo-reversed h [] low = tt
AllUpTo-reversed h (pair ∷ pairs) low =
    AllUpTo-append h (reversed pairs) (pair ∷ []) (AllUpTo-reversed h pairs low.1) (low.0, tt)

-- Above the heights of the records every entry stays as it is.
pub follow_back-above :
    (h k : ℕ) (pairs : List (FullBlock × BlockRecord)) (hashes : Dict Bytes32)
    → AllUpTo h pairs
    → h < k
    → lookup k (follow_back pairs hashes) ≡ lookup k hashes
follow_back-above h k [] hashes low above = refl
follow_back-above h k (pair ∷ pairs) hashes low above =
    let differ : (pair.1.height == k) ≡ false = ground (arith, low.0.1, above) in
    lookup-insert k pair.1.height pair.1.header_hash (follow_back pairs hashes)
    ∙ rw differ (follow_back-above h k pairs hashes low.1 above)

module _ (rows : Dict BlockRecord) (chain : IsChain (rows_of rows)) where
  -- A spine is at heights up to that of its block.
  pub Spine-AllUpTo :
      (h : ℕ) (stop : BlockRecord → Type 0) (b : BlockRecord)
      (pairs : List (FullBlock × BlockRecord))
      → IsStored (rows_of rows) b
      → b.height ≤ h
      → Spine rows stop b pairs
      → AllUpTo h pairs
  Spine-AllUpTo h stop b _ stored low (arrived done) = tt
  Spine-AllUpTo h stop b _ stored low (bottom full level root) =
      ((omega (arith, level, low), low), tt)
  Spine-AllUpTo h stop b _ stored low (step {p = p} {pairs = pairs} full level above found rest) =
      let (stored_p, below) = parent_found (rows_of rows) chain b p stored above found in
      (
        (omega (arith, level, low), low),
        Spine-AllUpTo h stop p pairs stored_p (omega (arith, below, low)) rest,
      )

  spine_step :
      (hashes : Dict Bytes32) (b p a : BlockRecord)
      → IsStored (rows_of rows) b
      → or_raise (lookup b.prev_hash rows) key_error ≡ ok p
      → Followed rows hashes p
      → Extends (rows_of rows) b a
      → lookup a.height (insert b.height b.header_hash hashes) ≡ some a.header_hash
  spine_step hashes b p a stored found followed self =
      lookup-insert_self b.height b.header_hash hashes
  spine_step hashes b p a stored found followed (back {p = q} above found' rest) =
      let (stored_q, below) = parent_found (rows_of rows) chain b q stored above found' in
      let low = Extends-height-le (rows_of rows) chain stored_q rest in
      let same : q ≡ p = ok-injective (sym found' ∙ found) in
      let differ : (b.height == a.height) ≡ false = ground (arith, low, below) in
      lookup-insert a.height b.height b.header_hash hashes
      ∙ rw differ (followed a (subst (λ r. Extends (rows_of rows) r a) same rest))

  -- Putting in the records of the spine makes the hashes those of the block's chain.
  pub Spine-Followed :
      (hashes : Dict Bytes32) (b : BlockRecord) (pairs : List (FullBlock × BlockRecord))
      → IsStored (rows_of rows) b
      → Spine rows (Followed rows hashes) b pairs
      → Followed rows (follow_back pairs hashes) b
  Spine-Followed hashes b [] stored (arrived done) = done
  Spine-Followed hashes b _ stored (bottom full level root) = λ a reached.
      let low = Extends-height-le (rows_of rows) chain stored reached in
      let same : a ≡ b = Extends-same_height (rows_of rows) chain stored reached (omega arith) in
      rw same (lookup-insert_self b.height b.header_hash hashes)
  Spine-Followed hashes b _ stored (step {p = p} {pairs = pairs} full level above found rest) =
      λ a reached.
        let (stored_p, below) = parent_found (rows_of rows) chain b p stored above found in
        spine_step (follow_back pairs hashes) b p a stored found
          (Spine-Followed hashes p pairs stored_p rest) reached

  -- A block that is at the fork is in the old chain, up to whose peak the hashes are right.
  pub common-Followed :
      (hashes : Dict Bytes32) (peak c : BlockRecord) (height : ℕ)
      → IsStored (rows_of rows) peak
      → IsStored (rows_of rows) c
      → Followed rows hashes peak
      → height ≤ peak.height
      → lookup height hashes ≡ some c.header_hash
      → Followed rows hashes c
  common-Followed hashes peak c height stored stored_c followed le at =
      let (d, reached, stored_d, at_d) = ancestor_at (rows_of rows) chain peak height stored le in
      let both : some d.header_hash ≡ some c.header_hash =
        sym (followed d reached) ∙ ap (λ k. lookup k hashes) at_d ∙ at in
      let same : d ≡ c = stored_unique (rows_of rows) chain d c stored_d stored_c cc in
      λ a further. followed a (
        Extends-trans (rows_of rows) chain reached
          (subst (λ r. Extends (rows_of rows) r a) (sym same) further))

-- The order in which the source puts the records in.
follow_records-append :
    (first second : List BlockRecord) (hashes : Dict Bytes32)
    → follow_records (first ++ second) hashes ≡ follow_records second (follow_records first hashes)
follow_records-append [] second hashes = refl
follow_records-append (b ∷ first) second hashes =
    follow_records-append first second (insert b.height b.header_hash hashes)

records_of-append :
    (first second : List (FullBlock × BlockRecord))
    → records_of (first ++ second) ≡ records_of first ++ records_of second
records_of-append [] second = refl
records_of-append (pair ∷ first) second = ap (λ l. pair.1 ∷ l) (records_of-append first second)

pub follow_records-reversed :
    (pairs : List (FullBlock × BlockRecord)) (hashes : Dict Bytes32)
    → follow_records (records_of (reversed pairs)) hashes ≡ follow_back pairs hashes
follow_records-reversed [] hashes = refl
follow_records-reversed (pair ∷ pairs) hashes =
    ap (λ l. follow_records l hashes) (records_of-append (reversed pairs) (pair ∷ []))
    ∙ follow_records-append (records_of (reversed pairs)) (pair.1 ∷ []) hashes
    ∙ ap (λ m. insert pair.1.height pair.1.header_hash m) (follow_records-reversed pairs hashes)
