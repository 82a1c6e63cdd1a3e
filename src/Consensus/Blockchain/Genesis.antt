-- ===== src/Consensus/Blockchain/Genesis.antt =====
-- The first block becomes the peak of a blockchain that has none.
use tad_blockchain.Base.{
  ℕ, ◌≡◌, sym, ap, ◌∙◌, true, Option, none, some, List, [], ◌∷◌, arith, ◌==◌, ==_iff,
}
use tad_blockchain.Base.Dict.{lookup, lookup-insert_self}
use tad_blockchain.Base.Result.{
  assertion_error, or_raise, IfReturns, IfReturns-after, IfReturns-bind,
}
use tad_blockchain.Consensus.Blockchain.{Blockchain, add_block_record, set_peak}
use tad_blockchain.Consensus.Blockchain.Stored.{IsNew, with_block, block-IsStored}
use tad_blockchain.Consensus.Blockchain.Path.{rows_of, IsPeak, set_peak-marked}
use tad_blockchain.Consensus.Blockchain.Peak.{
  PeakChange, first_changes, first_coins, accept_block, first_peak, reconsider_peak, update_cache,
}
use tad_blockchain.Consensus.Body.Fork.{BodyStores}
use tad_blockchain.Consensus.Chain.{IsChain, IsStored}
use tad_blockchain.Consensus.Chain.Ancestry.{Extends-height-le, Extends-same_height}
use tad_blockchain.Consensus.Cost.{NpcResult}
use tad_blockchain.FullNode.CoinStore.{CoinStore}
use tad_blockchain.Types.Conditions.{CoinRecord}
use tad_blockchain.Types.Block.{FullBlock}
use tad_blockchain.Types.BlockRecord.{BlockRecord}
use tad_blockchain.Types.Constants.{ConsensusConstants}
use tad_blockchain.Types.Primitives.{Primitives}

-- The block is the peak once the caches are updated.
abbrev Updated : BlockRecord → PeakChange × Blockchain → Type 0
Updated b r = IsPeak (update_cache b r.0 r.1) b

-- The state that first_peak gives.
peaked :
    (s : Blockchain) (b : BlockRecord) (added : List CoinRecord) (coin_store : CoinStore)
    → IsChain (rows_of s.block_store.block_rows)
    → IsStored (rows_of s.block_store.block_rows) b
    → b.height ≡ 0
    → Updated b (
      (record {
        fork_height = some 0;
        new_peak_height = some 0;
        records = b ∷ [];
        coin_changes = added;
        hint_changes = [];
      }),
      record s { coin_store = coin_store; block_store = set_peak b.header_hash s.block_store },
    )
unfolding add_block_record
peaked s b added coin_store chain stored root = record {
  height = ap some (sym root);
  cached = lookup-insert_self b.header_hash b s.block_records;
  stored = stored;
  marked = set_peak-marked s.block_store.block_rows b stored;
  followed = λ a reached.
      let low = Extends-height-le (rows_of s.block_store.block_rows) chain stored reached in
      let same : a ≡ b =
        Extends-same_height (rows_of s.block_store.block_rows) chain stored reached (omega arith) in
      rw same (lookup-insert_self b.height b.header_hash s.heights_to_hashes);
}

module _ (primitives : Primitives) (constants : ConsensusConstants) (stores : BodyStores) where
  first_peak-IsPeak :
      (s : Blockchain) (b : BlockRecord) (npc_result : Option NpcResult)
      → IsChain (rows_of s.block_store.block_rows)
      → IsStored (rows_of s.block_store.block_rows) b
      → b.height ≡ 0
      → IfReturns (first_peak primitives constants stores s b npc_result) (Updated b)
  unfolding first_peak add_block_record
  first_peak-IsPeak s b npc_result chain stored root =
      IfReturns-after (or_raise (lookup b.header_hash s.block_store.full_blocks) assertion_error) _
        (Updated b)
        (λ block.
          IfReturns-after (first_changes primitives constants stores npc_result) _ (Updated b)
            (λ changes.
              IfReturns-after (first_coins primitives constants stores s block changes.0 changes.1)
                _ (Updated b)
                (λ (added : List CoinRecord × CoinStore).
                  peaked s b added.0 added.1 chain stored root)))

  -- The first block that is accepted without a peak is the peak, under the height 0.
  pub accept_block-genesis :
      (s : Blockchain) (b : BlockRecord) (block : FullBlock) (fork_point_with_peak : Option ℕ)
      (npc_result : Option NpcResult)
      → IsChain (rows_of s.block_store.block_rows)
      → IsNew s block b
      → s.peak_height ≡ none
      → b.height ≡ 0
      → IfReturns
          (accept_block primitives constants stores s block b fork_point_with_peak npc_result)
          (λ r. IsPeak r.1 b)
  unfolding accept_block reconsider_peak
  accept_block-genesis s b block fork_point_with_peak npc_result chain new no_peak root =
      let genesis : (block.height == 0) ≡ true = (==_iff block.height 0).1 (new.height ∙ root) in
      let (chain', stored, before) = block-IsStored s block b chain new in
      rw (no_peak, genesis)
        (IfReturns-bind (first_peak primitives constants stores (with_block s block b) b npc_result)
          _ (Updated b) _ (first_peak-IsPeak (with_block s block b) b npc_result chain' stored root)
          (λ r done. done))
