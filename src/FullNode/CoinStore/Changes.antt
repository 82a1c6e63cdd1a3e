-- ===== src/FullNode/CoinStore/Changes.antt =====
-- Which records a rollback says have changed.
use mathlib.Core.List.{append-nil, append_assoc}
use tad_blockchain.Base.{
  ℕ, ◌≡◌, refl, sym, ap, ◌∙◌, false, none, [], ◌∷◌, ◌++◌, map, arith, ◌==◌, Bool-cases, inl, inr,
}
use tad_blockchain.Base.Dict.{
  Dict, Distinct, lookup, insert, AllEntries, found-AllEntries, lookup-append_new,
}
use tad_blockchain.Base.Int.{ℤ}
use tad_blockchain.Base.Result.{Returns, Returns-bind}
use tad_blockchain.Base.Table.{rows_where, rows_where-Distinct, values}
use tad_blockchain.FullNode.CoinStore.{
  CoinStore, is_after, confirmed_after, delete_after, deleted_changes, unspent_changes,
  unspend_cached, delete_queue, remove_all, rollback_to_block,
}
use tad_blockchain.FullNode.CoinStore.Coherent.{IsStore}
use tad_blockchain.FullNode.CoinStore.Updates.{rows_where-IsTable}
use tad_blockchain.FullNode.CoinStore.Rollback.{Rolled-cache, Rolled}
use tad_blockchain.Types.Bytes.{Bytes32}
use tad_blockchain.Types.Conditions.{CoinRecord}
use tad_blockchain.Types.Primitives.{Primitives, name}

-- A deleted row as it is told, with no height and no time.
abbrev pub forgotten : CoinRecord → CoinRecord
forgotten row = record row { confirmed_block_index = 0; timestamp = 0 }

confirmed_after-delete_after :
    (block_index : ℤ) (db : Dict CoinRecord)
    → confirmed_after block_index (delete_after block_index db) ≡ []
confirmed_after-delete_after block_index [] = refl
confirmed_after-delete_after block_index (row ∷ db) =
    elim (Bool-cases (is_after block_index row.1)) [
      | inl late ↦ rw late (confirmed_after-delete_after block_index db)
      | inr early ↦ rw (early, early) (confirmed_after-delete_after block_index db)
    ]

insert-append_new :
    (key : ℕ) (value : CoinRecord) (entries : Dict CoinRecord)
    → lookup key entries ≡ none
    → insert key value entries ≡ entries ++ (key, value) ∷ []
insert-append_new key value [] fresh = refl
insert-append_new key value (entry ∷ rest) fresh =
    ground (arith, insert-append_new key value rest, fresh)

values-append :
    (first second : Dict CoinRecord) → values (first ++ second) ≡ values first ++ values second
values-append [] second = refl
values-append (row ∷ first) second = ap (λ l. row.1 ∷ l) (values-append first second)

module _ (primitives : Primitives) where
  abbrev Fresh : Dict CoinRecord → Bytes32 → CoinRecord → Type 0
  Fresh changes k r = (lookup k changes ≡ none) × (name primitives r.coin ≡ k)

  still-Fresh :
      (changes : Dict CoinRecord) (key : Bytes32) (r : CoinRecord) (rows : Dict CoinRecord)
      → lookup key changes ≡ none
      → lookup key rows ≡ none
      → AllEntries (Fresh changes) rows
      → AllEntries (Fresh (changes ++ (key, r) ∷ [])) rows
  still-Fresh changes key r [] new out fresh = tt
  still-Fresh changes key r (row ∷ rows) new out fresh =
      let differ : (key == row.0) ≡ false = ground (arith, out) in
      let rest : lookup key rows ≡ none = ground (arith, out) in
      (
        (lookup-append_new row.0 key r changes new ∙ rw differ fresh.0.0, fresh.0.1),
        still-Fresh changes key r rows new rest fresh.1,
      )

  deleted_changes_lem :
      (rows changes : Dict CoinRecord)
      → Distinct rows
      → AllEntries (Fresh changes) rows
      → values (deleted_changes primitives (values rows) changes)
        ≡ values changes ++ map forgotten (values rows)
  deleted_changes_lem [] changes once fresh = sym (append-nil (values changes))
  deleted_changes_lem (row ∷ rows) changes once fresh =
      let new : Dict CoinRecord = changes ++ (row.0, forgotten row.1) ∷ [] in
      ap (λ l. values (deleted_changes primitives (values rows) l))
        (ap (λ k. insert k (forgotten row.1) changes) fresh.0.1
          ∙ insert-append_new row.0 (forgotten row.1) changes fresh.0.0)
      ∙ deleted_changes_lem rows new once.1
          (still-Fresh changes row.0 (forgotten row.1) rows fresh.0.0 once.0 fresh.1)
      ∙ ap (λ l. l ++ map forgotten (values rows))
          (values-append changes ((row.0, forgotten row.1) ∷ []))
      ∙ append_assoc (values changes) (forgotten row.1 ∷ []) (map forgotten (values rows))

  -- A rollback tells of the rows that it deletes, in their order and without height and time, and of no
  -- other coin: not of those whose spend it undoes.
  pub rollback_to_block-changes :
      (s : CoinStore) (block_index : ℤ)
      → IsStore primitives s
      → Returns
          (rollback_to_block primitives s block_index)
          (λ r. r.0 ≡ map forgotten (confirmed_after block_index s.coin_record_db))
  unfolding rollback_to_block
  rollback_to_block-changes s block_index store =
      let db = s.coin_record_db in
      Returns-bind
        (remove_all primitives (delete_queue primitives block_index s.coin_record_cache.cache)
          (unspend_cached primitives block_index s.coin_record_cache.cache s.coin_record_cache))
        _ (Rolled primitives block_index s) _ (Rolled-cache primitives block_index s store)
        (λ cache rolled.
          ap
            (λ rows. values (
              unspent_changes primitives rows
                (deleted_changes primitives (confirmed_after block_index db) [])))
            (confirmed_after-delete_after block_index db)
          ∙ deleted_changes_lem (rows_where (is_after block_index) db) []
              (rows_where-Distinct (is_after block_index) db store.table.once)
              (found-AllEntries (Fresh []) (rows_where (is_after block_index) db)
                (rows_where-Distinct (is_after block_index) db store.table.once)
                (λ k r found. (
                  refl,
                  (rows_where-IsTable primitives (is_after block_index) db store.table).named k r
                      found,
                ))))
