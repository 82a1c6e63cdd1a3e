-- ===== src/Consensus/Blockchain/Coins.antt =====
-- The coin store while the peak changes: its cache agrees with its table, whose rows are of blocks up
-- to a height.
use mathlib.Core.Path.{subst}
use tad_blockchain.Base.{
  ℕ, ◌≤◌, ◌≡◌, refl, sym, ◌∙◌, Option, none, some, List, [], ◌∷◌, ◌==◌, Bool-cases, Option-cases,
  inl, inr, if◌then◌else◌,
}
use tad_blockchain.Base.Dict.{AllEntries}
use tad_blockchain.Base.Int.{ℤ, pos}
use tad_blockchain.Base.Result.{
  ok, assertion_error, or_raise, ok-injective, IfReturns, IfReturns-bind, IfReturns-after,
  IfReturns-self, IfReturns-mono, IfReturns-ok, Returns-ok,
}
use tad_blockchain.Consensus.Blockchain.{Blockchain}
use tad_blockchain.Consensus.Blockchain.Branch.{fork_point}
use tad_blockchain.Consensus.Blockchain.Changes.{
  Applied, removed_records, apply_hints, apply_block, apply_blocks, get_tx_removals_and_additions,
  get_hint_list, add_hint_coins,
}
use tad_blockchain.Consensus.Blockchain.Path.{AllUpTo}
use tad_blockchain.Consensus.Blockchain.Peak.{roll_back}
use tad_blockchain.Consensus.Body.Fork.{BodyStores, included_reward_coins}
use tad_blockchain.Consensus.Cost.{NpcResult}
use tad_blockchain.FullNode.CoinStore.{CoinStore, get_coin_record, new_block, rollback_to_block}
use tad_blockchain.FullNode.CoinStore.Coherent.{IsStore, get_coin_record_lem}
use tad_blockchain.FullNode.CoinStore.Heights.{AtMost, UpTo-mono, UpTo-rolled, UpTo-new_block}
use tad_blockchain.FullNode.CoinStore.Rollback.{rollback_to_block-IsStore}
use tad_blockchain.FullNode.CoinStore.Undo.{UpTo}
use tad_blockchain.FullNode.CoinStore.Updates.{new_block-IsStore}
use tad_blockchain.Types.Block.{FullBlock}
use tad_blockchain.Types.BlockRecord.{BlockRecord, Coin}
use tad_blockchain.Types.Bytes.{Bytes32}
use tad_blockchain.Types.Constants.{ConsensusConstants}
use tad_blockchain.Types.Primitives.{Primitives}

-- The cache agrees with the table, and the rows are of blocks up to the height.
pub record IsLedger (primitives : Primitives) (h : ℕ) (s : CoinStore) : Type 0 where
  pub store : IsStore primitives s
  pub rows : AllEntries (UpTo h) s.coin_record_db

module _ (primitives : Primitives) where
  get_coin_record-IsLedger :
      (h : ℕ) (s : CoinStore) (coin_name : Bytes32)
      → IsLedger primitives h s
      → IsLedger primitives h (get_coin_record primitives s coin_name).1
  get_coin_record-IsLedger h s coin_name ledger =
      let (found, same, store) = get_coin_record_lem primitives s coin_name ledger.store in
      record { store = store; rows = subst (AllEntries (UpTo h)) (sym same) ledger.rows }

  removed_records-IsLedger :
      (h : ℕ) (tx_removals : List Bytes32) (s : CoinStore)
      → IsLedger primitives h s
      → IfReturns (removed_records primitives tx_removals s) (λ r. IsLedger primitives h r.1)
  unfolding removed_records
  removed_records-IsLedger h [] s ledger = ledger
  removed_records-IsLedger h (coin_name ∷ tx_removals) s ledger =
      let looked = get_coin_record primitives s coin_name in
      IfReturns-bind (removed_records primitives tx_removals looked.1) _
        (λ r. IsLedger primitives h r.1) _
        (removed_records-IsLedger h tx_removals looked.1
          (get_coin_record-IsLedger h s coin_name ledger))
        (λ r kept. IfReturns-after (or_raise looked.0 assertion_error) _ _ (λ _. kept))

  new_block-IsLedger :
      (h : ℕ) (s : CoinStore) (height timestamp : ℕ) (rewards tx_additions : List Coin)
      (tx_removals : List Bytes32)
      → height ≤ h
      → IsLedger primitives h s
      → IfReturns
          (new_block primitives s height timestamp rewards tx_additions tx_removals)
          (λ r. IsLedger primitives h r.1)
  new_block-IsLedger h s height timestamp rewards tx_additions tx_removals le ledger =
      let m = new_block primitives s height timestamp rewards tx_additions tx_removals in
      IfReturns-mono m (λ r. m ≡ ok r) _ (IfReturns-self m)
        (λ r e. record {
          store = IfReturns-ok m r _ e (
              new_block-IsStore primitives s height timestamp rewards tx_additions tx_removals
                ledger.store);
          rows = IfReturns-ok m r _ e (
              UpTo-new_block primitives s h height timestamp rewards tx_additions tx_removals le
                ledger.rows);
        })

  -- A rollback to at most the height.
  rolled_back-IsLedger :
      (h bound : ℕ) (s : CoinStore) (block_index : ℤ)
      → AtMost bound block_index
      → IsLedger primitives h s
      → IfReturns (rollback_to_block primitives s block_index) (λ r. IsLedger primitives bound r.1)
  rolled_back-IsLedger h bound s block_index le ledger =
      let m = rollback_to_block primitives s block_index in
      let (r, e, (store, rows)) =
        Returns-ok m _ (rollback_to_block-IsStore primitives block_index s ledger.store) in
      rw e (record {
        store = store;
        rows =
            subst (AllEntries (UpTo bound)) (sym rows)
              (UpTo-rolled h block_index bound s.coin_record_db le ledger.rows);
      })

  module _ (constants : ConsensusConstants) (stores : BodyStores) (h : ℕ) where
    apply_hints-IsLedger :
        (npc_result : Option NpcResult) (applied : Applied)
        → IsLedger primitives h applied.coin_store
        → IfReturns
            (apply_hints primitives constants stores npc_result applied)
            (λ r. IsLedger primitives h r.coin_store)
    unfolding apply_hints
    apply_hints-IsLedger none applied ledger = ledger
    apply_hints-IsLedger (some npc_res) applied ledger =
        IfReturns-after (get_hint_list primitives npc_res.npc_list) _ _ (λ hint_list.
          IfReturns-after
            (add_hint_coins hint_list applied.latest_coin_state applied.hint_coin_state) _ _
            (λ _. ledger))

    apply_block-IsLedger :
        (block : FullBlock) (npc_result : Option NpcResult) (applied : Applied)
        → block.height ≤ h
        → IsLedger primitives h applied.coin_store
        → IfReturns
            (apply_block primitives constants stores block npc_result applied)
            (λ r. IsLedger primitives h r.coin_store)
    unfolding apply_block
    apply_block-IsLedger block npc_result applied le ledger =
        elim (Option-cases block.foliage_transaction_block) [
          | inl missing ↦ rw missing ledger
          | inr (ftb, found) ↦ rw found (
              let known : FullBlock = record block { foliage_transaction_block = some ftb } in
              IfReturns-after
                (get_tx_removals_and_additions primitives constants stores known npc_result) _ _
                (λ changes.
                  IfReturns-after (included_reward_coins primitives constants stores known) _ _
                    (λ rewards.
                      IfReturns-bind
                        (new_block primitives applied.coin_store block.height ftb.timestamp rewards
                          changes.1 changes.0)
                        _ (λ r. IsLedger primitives h r.1) _
                        (new_block-IsLedger h applied.coin_store block.height ftb.timestamp rewards
                          changes.1 changes.0 le ledger)
                        (λ added with_block.
                          IfReturns-bind (removed_records primitives changes.0 added.1) _
                            (λ r. IsLedger primitives h r.1) _
                            (removed_records-IsLedger h changes.0 added.1 with_block)
                            (λ removed kept. apply_hints-IsLedger changes.2 _ kept)))))
        ]

    pub apply_blocks-IsLedger :
        (b : BlockRecord) (npc_result : Option NpcResult) (pairs : List (FullBlock × BlockRecord))
        (applied : Applied)
        → AllUpTo h pairs
        → IsLedger primitives h applied.coin_store
        → IfReturns
            (apply_blocks primitives constants stores b npc_result pairs applied)
            (λ r. IsLedger primitives h r.coin_store)
    unfolding apply_blocks
    apply_blocks-IsLedger b npc_result [] applied low ledger = ledger
    apply_blocks-IsLedger b npc_result (pair ∷ pairs) applied low ledger =
        let npc = if pair.1.header_hash == b.header_hash then npc_result else none in
        IfReturns-bind (apply_block primitives constants stores pair.0 npc applied) _ _ _
          (apply_block-IsLedger pair.0 npc applied low.0.0 ledger)
          (λ applied' kept. apply_blocks-IsLedger b npc_result pairs applied' low.1 kept)

    -- The rollback where the fork is at most at the height.
    pub roll_back-IsLedger :
        (s : Blockchain) (p b : BlockRecord) (fork_point_with_peak : Option ℕ) (fork_height : ℤ)
        → fork_point s b p fork_point_with_peak ≡ ok fork_height
        → AtMost h fork_height
        → IsLedger primitives p.height s.coin_store
        → IfReturns
            (roll_back primitives constants stores s b p fork_height)
            (λ r. IsLedger primitives h r.1)
    unfolding roll_back fork_point
    roll_back-IsLedger s p b fork_point_with_peak fork_height at le ledger =
        elim (Bool-cases (b.prev_hash == p.header_hash)) [
          | inl follows ↦
              let here : pos p.height ≡ fork_height = ok-injective (sym (rw follows refl) ∙ at) in
              let low : p.height ≤ h = subst (AtMost h) (sym here) le in
              rw follows (record {
                store = ledger.store;
                rows = UpTo-mono p.height h s.coin_store.coin_record_db low ledger.rows;
              })
          | inr forks ↦
              rw forks (rolled_back-IsLedger p.height h s.coin_store fork_height le ledger)
        ]
