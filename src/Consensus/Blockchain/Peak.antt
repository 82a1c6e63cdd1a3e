-- ===== src/Consensus/Blockchain/Peak.antt =====
-- tad/consensus/blockchain.py: `_reconsider_peak`, and how `receive_block` takes a validated block into
-- the stores and the caches.
use tad_blockchain.Base.{
  ℕ, ◌+◌, Bool, true, false, Option, none, some, List, [], ◌∷◌, ltb, ◌==◌, if◌then◌else◌,
}
use tad_blockchain.Base.Dict.{lookup}
use tad_blockchain.Base.Int.{ℤ, pos, negsuc}
use tad_blockchain.Base.Result.{Result, ok, assertion_error, ◌>>=◌, or_raise}
use tad_blockchain.Base.Table.{values}
use tad_blockchain.Consensus.Blockchain.{
  Blockchain, add_block_record, add_full_block, get_peak, set_peak,
}
use tad_blockchain.Consensus.Blockchain.Changes.{HintCoins, apply_blocks, note_records}
use tad_blockchain.Consensus.Body.Fork.{BodyStores, included_reward_coins}
use tad_blockchain.Consensus.Cost.{NpcResult}
use tad_blockchain.FullNode.CoinStore.{CoinStore, new_block, rollback_to_block}
use tad_blockchain.Types.Block.{FullBlock}
use tad_blockchain.Types.BlockRecord.{BlockRecord, Coin}
use tad_blockchain.Types.Bytes.{Bytes32}
use tad_blockchain.Types.Conditions.{CoinRecord}
use tad_blockchain.Types.Constants.{ConsensusConstants}
use tad_blockchain.Types.Primitives.{Primitives}
use tad_blockchain.Util.ConditionTools.{tx_removals_and_additions}
use tad_blockchain.Consensus.Blockchain.Branch.{
  fork_point, drop_summaries, blocks_to_add, reversed, records_of, follow_records, add_summaries,
}

-- What `_reconsider_peak` returns.
pub record PeakChange : Type 0 where
  pub fork_height : Option ℕ
  pub new_peak_height : Option ℕ
  pub records : List BlockRecord
  pub coin_changes : List CoinRecord
  pub hint_changes : HintCoins

-- The peak stays.
abbrev pub no_change : PeakChange
no_change = record {
  fork_height = none;
  new_peak_height = none;
  records = [];
  coin_changes = [];
  hint_changes = [];
}

-- The update of the caches, after the transaction.
abbrev pub update_cache : BlockRecord → PeakChange → Blockchain → Blockchain
update_cache block_record change self =
    let added = add_block_record block_record self in
    record added {
      heights_to_hashes = follow_records change.records added.heights_to_hashes;
      sub_epoch_summaries = add_summaries change.records added.sub_epoch_summaries;
      peak_height = elim change.new_peak_height [
        | none ↦ added.peak_height
        | some height ↦ some height
      ];
    }

module _ (primitives : Primitives) (constants : ConsensusConstants) (stores : BodyStores) where
  -- What the first block spends and creates.
  unfoldable pub first_changes : Option NpcResult → Result (List Bytes32 × List Coin)
  unfolding tx_removals_and_additions
  first_changes none = ok ([], [])
  first_changes (some r) = tx_removals_and_additions primitives r.npc_list

  unfoldable pub first_coins :
      Blockchain → FullBlock → List Bytes32 → List Coin → Result (List CoinRecord × CoinStore)
  unfolding included_reward_coins new_block
  first_coins self block tx_removals tx_additions = elim block.foliage_transaction_block [
    | none ↦ ok ([], self.coin_store)
    | some ftb ↦ do
      rewards ← included_reward_coins primitives constants stores block
      new_block primitives self.coin_store block.height ftb.timestamp rewards tx_additions
          tx_removals
  ]

  -- The first block of a blockchain without a peak.
  unfoldable pub first_peak :
      Blockchain → BlockRecord → Option NpcResult → Result (PeakChange × Blockchain)
  unfolding first_changes first_coins
  first_peak self block_record npc_result = do
    block ← or_raise (lookup block_record.header_hash self.block_store.full_blocks) assertion_error
    (tx_removals, tx_additions) ← first_changes npc_result
    (added, coin_store) ← first_coins self block tx_removals tx_additions
    ok (
      (record {
        fork_height = some 0;
        new_peak_height = some 0;
        records = block_record ∷ [];
        coin_changes = added;
        hint_changes = [];
      }),
      record self {
        coin_store = coin_store;
        block_store = set_peak block_record.header_hash self.block_store;
      },
    )

  -- A rollback to the fork, where the block does not follow the peak.
  unfoldable pub roll_back :
      Blockchain → BlockRecord → BlockRecord → ℤ → Result (List CoinRecord × CoinStore)
  unfolding rollback_to_block
  roll_back self block_record peak fork_height =
      if block_record.prev_hash == peak.header_hash
      then ok ([], self.coin_store)
      else rollback_to_block primitives self.coin_store fork_height

  -- A heavier block becomes the peak.
  unfoldable pub change_peak :
      Blockchain
      → BlockRecord
      → BlockRecord
      → Option ℕ
      → Option NpcResult
      → Result (PeakChange × Blockchain)
  unfolding fork_point roll_back blocks_to_add apply_blocks
  change_peak self block_record peak fork_point_with_peak npc_result = do
    fork_height ← fork_point self block_record peak fork_point_with_peak
    (roll_changes, coin_store) ← roll_back self block_record peak fork_height
    to_add ← blocks_to_add self (block_record.height + 1) fork_height block_record.header_hash
    applied ←
        apply_blocks primitives constants stores block_record npc_result (reversed to_add) (record {
          coin_store = coin_store;
          hints = self.hints;
          latest_coin_state = note_records primitives roll_changes [];
          hint_coin_state = [];
        })
    ok (
      (record {
        fork_height = some (elim fork_height [ pos height ↦ height | negsuc n ↦ 0 ]);
        new_peak_height = some block_record.height;
        records = records_of (reversed to_add);
        coin_changes = values applied.latest_coin_state;
        hint_changes = applied.hint_coin_state;
      }),
      record self {
        sub_epoch_summaries = drop_summaries fork_height self.sub_epoch_summaries;
        coin_store = applied.coin_store;
        hints = applied.hints;
        block_store = set_peak block_record.header_hash self.block_store;
      },
    )

  unfoldable pub reconsider_peak :
      Blockchain
      → BlockRecord
      → Bool
      → Option ℕ
      → Option NpcResult
      → Result (PeakChange × Blockchain)
  unfolding first_peak change_peak
  reconsider_peak self block_record genesis fork_point_with_peak npc_result = do
    found ← get_peak self
    elim genesis [
      | true ↦ elim found [
        | none ↦ first_peak self block_record npc_result
        | some _ ↦ ok (no_change, self)
      ]
      | false ↦ do
        peak ← or_raise found assertion_error
        elim (ltb peak.weight block_record.weight) [
          | true ↦ change_peak self block_record peak fork_point_with_peak npc_result
          | false ↦ ok (no_change, self)
        ]
    ]

  -- The part of `receive_block` that follows the validation.
  unfoldable pub accept_block :
      Blockchain
      → FullBlock
      → BlockRecord
      → Option ℕ
      → Option NpcResult
      → Result (PeakChange × Blockchain)
  unfolding reconsider_peak
  accept_block self block block_record fork_point_with_peak npc_result = do
    let stored : Blockchain = record self {
      block_store = add_full_block block_record.header_hash block block_record self.block_store;
    }
    (change, self') ←
        reconsider_peak stored block_record (block.height == 0) fork_point_with_peak npc_result
    ok (change, update_cache block_record change self')
