-- ===== src/Consensus/Blockchain/Follow.antt =====
-- Changing the peak puts the hashes of the new peak's chain under its heights.
use mathlib.Core.Path.{subst}
use tad_blockchain.Base.{
  ℕ, zero, suc, ◌+◌, ◌<◌, ◌≤◌, ◌≡◌, refl, sym, ap, ◌∙◌, true, false, Option, none, some, List, [],
  ◌∷◌, arith, ◌==◌, ==_iff, Bool-cases, inl, inr,
}
use tad_blockchain.Base.Dict.{Dict, lookup, lookup-insert_self}
use tad_blockchain.Base.Int.{ℤ, pos, negsuc}
use tad_blockchain.Base.Result.{
  ok, Exn, key_error, assertion_error, ◌>>=◌, or_raise, ok-injective, IfReturns, IfReturns-bind,
  IfReturns-after, IfReturns-self, IfReturns-mono,
}
use tad_blockchain.Consensus.Blockchain.{Blockchain, add_block_record}
use tad_blockchain.Consensus.Blockchain.Path.{
  rows_of, Followed, IsPeak, Spine, arrived, bottom, step, Spine-Followed, common-Followed,
  follow_records-reversed, set_peak-marked,
}
use tad_blockchain.Consensus.Blockchain.Branch.{
  at_fork, blocks_to_add, follow_records, fork_point, records_of, reversed,
}
use tad_blockchain.Consensus.Blockchain.Peak.{change_peak, roll_back, update_cache}
use tad_blockchain.Consensus.Chain.{IsChain, IsStored}
use tad_blockchain.Consensus.Chain.Ancestry.{parent, parent_found}
use tad_blockchain.Consensus.Blockchain.Changes.{apply_blocks}
use tad_blockchain.Consensus.Body.Fork.{BodyStores}
use tad_blockchain.Consensus.Cost.{NpcResult}
use tad_blockchain.Types.Constants.{ConsensusConstants}
use tad_blockchain.Types.Primitives.{Primitives}
use tad_blockchain.Types.Block.{FullBlock}
use tad_blockchain.Types.BlockRecord.{BlockRecord}
use tad_blockchain.Types.Bytes.{Bytes32}

-- Two reads of one entry.
same_entry :
    {A : Type 0} (entry : Option A) (e e' : Exn) (a b : A)
    → or_raise entry e ≡ ok a
    → or_raise entry e' ≡ ok b
    → a ≡ b
same_entry none e e' a b at at' = absurd cc
same_entry (some r) e e' a b at at' = ok-injective (sym at ∙ at')

pub found_entry :
    {A : Type 0} (entry : Option A) (e : Exn) (a : A) → or_raise entry e ≡ ok a → entry ≡ some a
found_entry none e a at = absurd cc
found_entry (some r) e a at = ap some (ok-injective at)

-- A stored full block has the height of its record.
abbrev pub SameHeights : Blockchain → Type 0
SameHeights s =
    (h : Bytes32) (full : FullBlock) (r : BlockRecord)
    → lookup h s.block_store.full_blocks ≡ some full
    → lookup h s.block_store.block_rows ≡ some r
    → full.height ≡ r.height

-- The fork is not above the block.
abbrev pub UpTo : ℤ → BlockRecord → Type 0
UpTo (negsuc n) p = Unit
UpTo (pos height) p = height ≤ p.height

-- The loop has come to the fork.
abbrev pub AtFork : Blockchain → ℤ → BlockRecord → Type 0
AtFork s fork_height c = at_fork s fork_height c.header_hash ≡ ok true

module _ (s : Blockchain) (chain : IsChain (rows_of s.block_store.block_rows))
    (heights : SameHeights s) (fork_height : ℤ) where
  -- What a round does after both look-ups.
  round :
      (fuel : ℕ) (b : BlockRecord) (full : FullBlock)
      → IsStored (rows_of s.block_store.block_rows) b
      → full.height ≡ b.height
      → ((p : BlockRecord) (curr : Bytes32)
          → IsStored (rows_of s.block_store.block_rows) p
          → p.header_hash ≡ curr
          → IfReturns
              (blocks_to_add s fuel fork_height curr)
              (Spine s.block_store.block_rows (AtFork s fork_height) p))
      → IfReturns
          (elim (full.height == 0) [
            | true ↦ ok ((full, b) ∷ [])
            | false ↦ do rest ← blocks_to_add s fuel fork_height b.prev_hash; ok ((full, b) ∷ rest)
          ])
          (Spine s.block_store.block_rows (AtFork s fork_height) b)
  round fuel b full stored same earlier = elim (Bool-cases (full.height == 0)) [
    | inl root ↦ rw root (bottom full same (ground (arith, root, same)))
    | inr above ↦ rw above (
        let higher : 0 < b.height = ground (arith, above, same) in
        let (p, found, stored_p, below) =
          parent (rows_of s.block_store.block_rows) chain b stored higher in
        IfReturns-bind (blocks_to_add s fuel fork_height b.prev_hash) _ _ _
          (earlier p b.prev_hash stored_p (chain.named b.prev_hash p found))
          (λ rest spine. step full same higher found spine))
  ]

  -- The loop collects the blocks from the block down to the fork.
  pub blocks_to_add-Spine :
      (fuel : ℕ) (b : BlockRecord) (curr : Bytes32)
      → IsStored (rows_of s.block_store.block_rows) b
      → b.header_hash ≡ curr
      → IfReturns
          (blocks_to_add s fuel fork_height curr)
          (Spine s.block_store.block_rows (AtFork s fork_height) b)
  unfolding blocks_to_add
  blocks_to_add-Spine zero b curr stored at = tt
  blocks_to_add-Spine (suc fuel) b curr stored at =
      let rows = s.block_store.block_rows in
      IfReturns-bind (at_fork s fork_height curr) _ _ _
        (IfReturns-self (at_fork s fork_height curr))
        (λ found e. elim (Bool-cases found) [
          | inl arrives ↦ rw arrives (arrived (ap (at_fork s fork_height) at ∙ e ∙ ap ok arrives))
          | inr goes_on ↦ rw goes_on (
              IfReturns-bind (or_raise (lookup curr s.block_store.full_blocks) assertion_error) _ _
                _
                (IfReturns-self (or_raise (lookup curr s.block_store.full_blocks) assertion_error))
                (λ full e'.
                  IfReturns-bind (or_raise (lookup curr rows) assertion_error) _ _ _
                    (IfReturns-self (or_raise (lookup curr rows) assertion_error))
                    (λ fetched e''.
                      let here : or_raise (lookup curr rows) key_error ≡ ok b =
                        ap (λ h. or_raise (lookup h rows) key_error) (sym at) ∙ stored in
                      let same : b ≡ fetched =
                        same_entry (lookup curr rows) key_error assertion_error b fetched here
                          e'' in
                      rw same (
                        round fuel fetched full (subst (IsStored (rows_of rows)) same stored)
                          (heights curr full fetched
                            (found_entry (lookup curr s.block_store.full_blocks) assertion_error
                              full e')
                            (found_entry (lookup curr rows) assertion_error fetched e''))
                          (blocks_to_add-Spine fuel)))))
        ])

-- What the test of the loop found.
fork_hash :
    (entry : Option Bytes32) (curr : Bytes32)
    → (or_raise entry key_error >>= λ header_hash. ok (curr == header_hash)) ≡ ok true
    → entry ≡ some curr
fork_hash none curr e = absurd cc
fork_hash (some h) curr e = ap some (sym ((==_iff curr h).0 (ok-injective e)))

-- The block at the fork is followed.
pub fork-Followed :
    (s : Blockchain) (p c : BlockRecord) (fork_height : ℤ)
    → IsChain (rows_of s.block_store.block_rows)
    → IsPeak s p
    → IsStored (rows_of s.block_store.block_rows) c
    → UpTo fork_height p
    → AtFork s fork_height c
    → Followed s.block_store.block_rows s.heights_to_hashes c
fork-Followed s p c (negsuc n) chain peak stored le at = absurd (ground (arith, at))
fork-Followed s p c (pos height) chain peak stored le at =
    common-Followed s.block_store.block_rows chain s.heights_to_hashes p c height peak.stored stored
      peak.followed le (fork_hash (lookup height s.heights_to_hashes) c.header_hash at)

pub Spine-mono :
    (rows : Dict BlockRecord) (P Q : BlockRecord → Type 0) (b : BlockRecord)
    (pairs : List (FullBlock × BlockRecord))
    → IsChain (rows_of rows)
    → IsStored (rows_of rows) b
    → ((c : BlockRecord) → IsStored (rows_of rows) c → P c → Q c)
    → Spine rows P b pairs
    → Spine rows Q b pairs
Spine-mono rows P Q b _ chain stored f (arrived p) = arrived (f b stored p)
Spine-mono rows P Q b _ chain stored f (bottom full level root) = bottom full level root
Spine-mono rows P Q b _ chain stored f (step {p = p} {pairs = pairs} full level above found rest) =
    step full level above found (
      Spine-mono rows P Q p pairs chain (parent_found (rows_of rows) chain b p stored above found).0
        f rest)

-- The update of the hashes by what the loop collects.
pub blocks_to_add-Followed :
    (s : Blockchain) (p b : BlockRecord) (fuel : ℕ) (fork_height : ℤ)
    → IsChain (rows_of s.block_store.block_rows)
    → SameHeights s
    → IsPeak s p
    → IsStored (rows_of s.block_store.block_rows) b
    → UpTo fork_height p
    → IfReturns (blocks_to_add s fuel fork_height b.header_hash) (λ to_add.
      Followed s.block_store.block_rows
        (follow_records (records_of (reversed to_add)) s.heights_to_hashes)
        b)
blocks_to_add-Followed s p b fuel fork_height chain heights peak stored le =
    IfReturns-mono (blocks_to_add s fuel fork_height b.header_hash) _ _
      (blocks_to_add-Spine s chain heights fork_height fuel b b.header_hash stored refl)
      (λ to_add spine.
        subst (λ hashes. Followed s.block_store.block_rows hashes b)
          (sym (follow_records-reversed to_add s.heights_to_hashes))
          (Spine-Followed s.block_store.block_rows chain s.heights_to_hashes b to_add stored (
            Spine-mono s.block_store.block_rows (AtFork s fork_height) _ b to_add chain stored
              (λ c stored_c at. fork-Followed s p c fork_height chain peak stored_c le at) spine)))

module _ (primitives : Primitives) (constants : ConsensusConstants) (stores : BodyStores) where
  -- A heavier block becomes the peak.
  pub change_peak-IsPeak :
      (s : Blockchain) (p b : BlockRecord) (fork_point_with_peak : Option ℕ)
      (npc_result : Option NpcResult)
      → IsChain (rows_of s.block_store.block_rows)
      → SameHeights s
      → IsPeak s p
      → IsStored (rows_of s.block_store.block_rows) b
      → IfReturns (fork_point s b p fork_point_with_peak) (λ fork_height. UpTo fork_height p)
      → IfReturns
          (change_peak primitives constants stores s b p fork_point_with_peak npc_result)
          (λ r. IsPeak (update_cache b r.0 r.1) b)
  unfolding change_peak add_block_record
  change_peak-IsPeak s p b fork_point_with_peak npc_result chain heights peak stored le =
      IfReturns-bind (fork_point s b p fork_point_with_peak) _ _ _ le (λ fork_height low.
        IfReturns-after (roll_back primitives constants stores s b p fork_height) _ _ (λ rolled.
          IfReturns-bind (blocks_to_add s (b.height + 1) fork_height b.header_hash) _ _ _
            (blocks_to_add-Followed s p b (b.height + 1) fork_height chain heights peak stored low)
            (λ to_add followed.
              IfReturns-after
                (apply_blocks primitives constants stores b npc_result (reversed to_add) _) _ _
                (λ applied. record {
                  height = refl;
                  cached = lookup-insert_self b.header_hash b s.block_records;
                  stored = stored;
                  marked = set_peak-marked s.block_store.block_rows b stored;
                  followed = followed;
                }))))
