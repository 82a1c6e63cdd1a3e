-- ===== src/FullNode/CoinStore/Added.antt =====
-- The coins of a block are found under its height.
use mathlib.Core.List.{append-nil, append_assoc, map-append}
use tad_blockchain.Base.{
  ℕ, ◌<◌, ◌≡◌, refl, sym, ap, ◌∙◌, Bool, true, false, List, [], ◌∷◌, ◌++◌, map, arith, ◌==◌, ==_iff,
  leb, length, if◌then◌else◌, Bool-cases, inl, inr,
}
use tad_blockchain.Base.Dict.{Dict, AllEntries}
use tad_blockchain.Base.Result.{
  IfReturns, IfReturns-bind, IfReturns-after, IfReturns-self, IfReturns-mono, assert,
}
use tad_blockchain.Base.Table.{insert_row, insert_row_lem, rows_where, values}
use tad_blockchain.FullNode.CoinStore.{
  CoinStore, insert_rows, add_coin_records, added_records, new_record, update_spent, update_all,
  set_spent, new_block,
}
use tad_blockchain.FullNode.CoinStore.Queries.{get_coins_added_at_height}
use tad_blockchain.FullNode.CoinStore.Undo.{AllAt, added_records-AllAt}
use tad_blockchain.Types.BlockRecord.{Coin}
use tad_blockchain.Types.Bytes.{Bytes32}
use tad_blockchain.Types.Conditions.{CoinRecord}
use tad_blockchain.Types.Primitives.{Primitives, name}

-- The coins of the rows of the height, in the order of the rows.
abbrev coins_at : ℕ → Dict CoinRecord → List Coin
coins_at height db =
    map (λ (r : CoinRecord). r.coin)
      (values (rows_where (λ r. r.confirmed_block_index == height) db))

abbrev coins_of : List CoinRecord → List Coin
coins_of records = map (λ (r : CoinRecord). r.coin) records

coins_at_early :
    (height : ℕ) (db : Dict CoinRecord)
    → AllEntries (λ k r. r.confirmed_block_index < height) db
    → coins_at height db ≡ []
coins_at_early height [] early = refl
coins_at_early height (row ∷ db) early = ground (arith, early.0, coins_at_early height db early.1)

coins_at-append :
    (height : ℕ) (db : Dict CoinRecord) (key : Bytes32) (r : CoinRecord)
    → r.confirmed_block_index ≡ height
    → coins_at height (db ++ (key, r) ∷ []) ≡ coins_at height db ++ r.coin ∷ []
coins_at-append height [] key r at = rw ((==_iff r.confirmed_block_index height).1 at) refl
coins_at-append height (row ∷ db) key r at =
    elim (Bool-cases (row.1.confirmed_block_index == height)) [
      | inl same ↦ rw same (ap (λ l. row.1.coin ∷ l) (coins_at-append height db key r at))
      | inr other ↦ rw other (coins_at-append height db key r at)
    ]

coins_at-update_spent :
    (height index : ℕ) (coin_name : Bytes32) (db : Dict CoinRecord)
    → coins_at height (update_spent index coin_name db) ≡ coins_at height db
coins_at-update_spent height index coin_name [] = refl
coins_at-update_spent height index coin_name (row ∷ db) =
    ground (arith, coins_at-update_spent height index coin_name db)

module _ (primitives : Primitives) where
  coins_at-update_all :
      (height index : ℕ) (coin_names : List Bytes32) (db : Dict CoinRecord)
      → coins_at height (update_all primitives index coin_names db) ≡ coins_at height db
  coins_at-update_all height index [] db = refl
  coins_at-update_all height index (coin_name ∷ coin_names) db =
      coins_at-update_all height index coin_names (update_spent index coin_name db)
      ∙ coins_at-update_spent height index coin_name db

  coins_at-insert_rows :
      (height : ℕ) (records : List CoinRecord) (db : Dict CoinRecord)
      → AllAt height records
      → IfReturns
          (insert_rows primitives records db)
          (λ after. coins_at height after ≡ coins_at height db ++ coins_of records)
  unfolding insert_rows
  coins_at-insert_rows height [] db at = sym (append-nil (coins_at height db))
  coins_at-insert_rows height (r ∷ records) db at =
      IfReturns-bind (insert_row (name primitives r.coin) r db) _ _ _
        (IfReturns-self (insert_row (name primitives r.coin) r db))
        (λ next e.
          IfReturns-mono (insert_rows primitives records next) _ _
            (coins_at-insert_rows height records next at.1)
            (λ after same.
              same
              ∙ ap (λ l. l ++ coins_of records)
                  (ap (coins_at height) (insert_row_lem (name primitives r.coin) r db next e).1
                    ∙ coins_at-append height db (name primitives r.coin) r at.0)
              ∙ append_assoc (coins_at height db) (r.coin ∷ []) (coins_of records)))

  coins_of-new_record :
      (height timestamp : ℕ) (coinbase : Bool) (coins : List Coin)
      → coins_of (map (new_record primitives height timestamp coinbase) coins) ≡ coins
  coins_of-new_record height timestamp coinbase [] = refl
  coins_of-new_record height timestamp coinbase (coin ∷ coins) =
      ap (λ l. coin ∷ l) (coins_of-new_record height timestamp coinbase coins)

  coins_of-added_records :
      (height timestamp : ℕ) (rewards tx_additions : List Coin)
      → coins_of (added_records primitives height timestamp rewards tx_additions)
        ≡ tx_additions ++ rewards
  coins_of-added_records height timestamp rewards tx_additions =
      map-append (λ (r : CoinRecord). r.coin)
        (map (new_record primitives height timestamp false) tx_additions)
        (map (new_record primitives height timestamp true) rewards)
      ∙ ap (λ l. l ++ coins_of (map (new_record primitives height timestamp true) rewards))
          (coins_of-new_record height timestamp false tx_additions)
      ∙ ap (λ l. tx_additions ++ l) (coins_of-new_record height timestamp true rewards)

  -- The coins found under the height of a block that was added are those that it creates, then its
  -- rewards, where the table had no row of that height or later.
  pub get_coins_added_at_height-new_block :
      (s : CoinStore) (height timestamp : ℕ) (rewards tx_additions : List Coin)
      (tx_removals : List Bytes32)
      → AllEntries (λ k r. r.confirmed_block_index < height) s.coin_record_db
      → IfReturns (new_block primitives s height timestamp rewards tx_additions tx_removals) (λ r.
        map (λ (found : CoinRecord). found.coin) (get_coins_added_at_height r.1 height)
        ≡ tx_additions ++ rewards)
  unfolding new_block add_coin_records set_spent get_coins_added_at_height
  get_coins_added_at_height-new_block s height timestamp rewards tx_additions tx_removals early =
      let records = added_records primitives height timestamp rewards tx_additions in
      IfReturns-after (assert (if height == 0 then length rewards == 0 else leb 2 (length rewards)))
        _ _
        (λ _.
          IfReturns-bind (add_coin_records primitives s records) _
            (λ s'.
              coins_at height s'.coin_record_db
              ≡ coins_at height s.coin_record_db ++ coins_of records)
            _
            (IfReturns-bind (insert_rows primitives records s.coin_record_db) _ _ _
              (coins_at-insert_rows height records s.coin_record_db
                (added_records-AllAt primitives height timestamp rewards tx_additions))
              (λ db same. same))
            (λ s' same.
              coins_at-update_all height height tx_removals s'.coin_record_db
              ∙ same
              ∙ ap (λ l. l ++ coins_of records) (coins_at_early height s.coin_record_db early)
              ∙ coins_of-added_records height timestamp rewards tx_additions))
