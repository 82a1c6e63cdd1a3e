-- ===== src/Consensus/Blockchain/Stored.antt =====
-- A new block in the tables, before the peak is reconsidered.
use mathlib.Core.Path.{subst}
use tad_blockchain.Base.{
  ◌+◌, ◌<◌, ◌≡◌, refl, sym, ap, ◌∙◌, false, none, some, [], arith, ◌==◌, ==_iff, Bool-cases, inl,
  inr,
}
use tad_blockchain.Base.Dict.{Dict, insert, lookup, lookup-insert}
use tad_blockchain.Base.Result.{ok, or_raise, key_error, ok-injective, Returns}
use tad_blockchain.Consensus.BlockCache.{BlockCache}
use tad_blockchain.Consensus.BlockCache.{add_block_record as cache_block}
use tad_blockchain.Consensus.BlockCache.Linked.{add_block_record-IsChain}
use tad_blockchain.Consensus.Blockchain.{Blockchain, get_peak, add_block_record, add_full_block}
use tad_blockchain.Consensus.Blockchain.Follow.{SameHeights}
use tad_blockchain.Consensus.Blockchain.Path.{rows_of, IsPeak}
use tad_blockchain.Consensus.Blockchain.Peak.{no_change, update_cache}
use tad_blockchain.Consensus.Chain.{IsChain, IsStored, Extends, self, back}
use tad_blockchain.Consensus.Chain.Ancestry.{parent}
use tad_blockchain.Types.Block.{FullBlock}
use tad_blockchain.Types.BlockRecord.{BlockRecord}

-- The blockchain with the block in the tables.
abbrev pub with_block : Blockchain → FullBlock → BlockRecord → Blockchain
with_block s block b = record s { block_store = add_full_block b.header_hash block b s.block_store }

-- The block is new, and its parent is stored one height below.
pub record IsNew (s : Blockchain) (block : FullBlock) (b : BlockRecord) : Type 0 where
  pub fresh : lookup b.header_hash s.block_store.block_rows ≡ none
  pub height : block.height ≡ b.height
  pub linked :
      0 < b.height
      → Returns
          (or_raise (lookup b.prev_hash s.block_store.block_rows) key_error)
          (λ p. p.height + 1 ≡ b.height)

module _ (s : Blockchain) (block : FullBlock) (b : BlockRecord)
    (chain : IsChain (rows_of s.block_store.block_rows)) (new : IsNew s block b) where
  abbrev rows_after : Dict BlockRecord
  rows_after = insert b.header_hash b s.block_store.block_rows

  rows_cache : BlockCache
  rows_cache = record {
    block_records = s.block_store.block_rows;
    height_to_hash_map = [];
    sub_epoch_summaries = [];
  }

  -- The tables with the block.
  pub block-IsStored :
      IsChain (rows_of rows_after)
      × IsStored (rows_of rows_after) b
      × ((c : BlockRecord)
          → IsStored (rows_of s.block_store.block_rows) c
          → IsStored (rows_of rows_after) c)
  unfolding cache_block rows_cache
  block-IsStored = add_block_record-IsChain rows_cache b chain new.fresh new.linked

  -- A block that was stored before has the ancestors that it had.
  Extends-before :
      (p a : BlockRecord)
      → IsStored (rows_of s.block_store.block_rows) p
      → Extends (rows_of rows_after) p a
      → Extends (rows_of s.block_store.block_rows) p a
  Extends-before p _ stored self = self
  Extends-before p a stored (back {p = q} above found rest) =
      let (r, found_r, stored_r, below) =
        parent (rows_of s.block_store.block_rows) chain p stored above in
      let after : or_raise (lookup p.prev_hash rows_after) key_error ≡ ok r =
        ap (λ h. or_raise (lookup h rows_after) key_error) (sym (chain.named p.prev_hash r found_r))
        ∙ block-IsStored.2 r stored_r in
      let same : r ≡ q = ok-injective (sym after ∙ found) in
      back above (found_r ∙ ap ok same) (
        Extends-before q a (subst (IsStored (rows_of s.block_store.block_rows)) same stored_r) rest)

  -- The peak's hash is not the new one.
  other_hash : (p : BlockRecord) → IsPeak s p → (b.header_hash == p.header_hash) ≡ false
  other_hash p peak = elim (Bool-cases (b.header_hash == p.header_hash)) [
    | inl same ↦
        let none_there : or_raise none key_error ≡ ok p =
          ap (λ e. or_raise e key_error)
            (sym new.fresh
              ∙ ap (λ h. lookup h s.block_store.block_rows)
                  ((==_iff b.header_hash p.header_hash).0 same))
          ∙ peak.stored in
        absurd cc
    | inr differ ↦ differ
  ]

  pub before-IsPeak : (p : BlockRecord) → IsPeak s p → IsPeak (with_block s block b) p
  before-IsPeak p peak = record {
    height = peak.height;
    cached = peak.cached;
    stored = block-IsStored.2 p peak.stored;
    marked = rw peak.marked (ground (arith, other_hash p peak));
    followed = λ a reached. peak.followed a (Extends-before p a peak.stored reached);
  }

  -- The caches after a block that does not become the peak.
  pub orphan-IsPeak :
      (p : BlockRecord) → IsPeak s p → IsPeak (update_cache b no_change (with_block s block b)) p
  unfolding add_block_record
  orphan-IsPeak p peak =
      let before = before-IsPeak p peak in
      record {
        height = before.height;
        cached =
            lookup-insert p.header_hash b.header_hash b s.block_records
            ∙ rw (other_hash p peak) before.cached;
        stored = before.stored;
        marked = before.marked;
        followed = before.followed;
      }

  pub heights_after : SameHeights s → SameHeights (with_block s block b)
  heights_after heights h full r in_full in_rows = elim (Bool-cases (b.header_hash == h)) [
    | inl same ↦
        let full_is : some block ≡ some full =
          sym (lookup-insert h b.header_hash block s.block_store.full_blocks ∙ rw same refl)
          ∙ in_full in
        let row_is : some b ≡ some r =
          sym (lookup-insert h b.header_hash b s.block_store.block_rows ∙ rw same refl) ∙ in_rows in
        let same_full : block ≡ full = cc in
        let same_row : b ≡ r = cc in
        ap (λ (x : FullBlock). x.height) (sym same_full)
        ∙ new.height
        ∙ ap (λ (x : BlockRecord). x.height) same_row
    | inr other ↦
        heights h full r
          (sym (lookup-insert h b.header_hash block s.block_store.full_blocks ∙ rw other refl)
            ∙ in_full)
          (sym (lookup-insert h b.header_hash b s.block_store.block_rows ∙ rw other refl) ∙ in_rows)
  ]

  pub get_peak_lem : (p : BlockRecord) → IsPeak s p → get_peak s ≡ ok (some p)
  get_peak_lem p peak = rw (peak.height, peak.followed p self, peak.cached) refl
