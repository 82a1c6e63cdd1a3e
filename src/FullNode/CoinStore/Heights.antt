-- ===== src/FullNode/CoinStore/Heights.antt =====
-- The rows of a table are of blocks up to a height: a block at most at that height and a rollback to
-- at most that height keep it.
use mathlib.Core.Path.{subst}
use tad_blockchain.Base.{
  ℕ, ◌≤◌, ◌≡◌, refl, sym, Bool, true, false, List, [], ◌∷◌, ◌++◌, map, arith, ◌==◌, leb, length,
  if◌then◌else◌, Bool-cases, inl, inr,
}
use tad_blockchain.Base.Dict.{Dict, AllEntries}
use tad_blockchain.Base.Int.{ℤ, pos, negsuc, ltb_ℤ}
use tad_blockchain.Base.Result.{IfReturns, IfReturns-bind, IfReturns-after, IfReturns-self, assert}
use tad_blockchain.Base.Table.{insert_row, insert_row_lem}
use tad_blockchain.FullNode.CoinStore.{
  CoinStore, is_after, unspent_after, insert_rows, add_coin_records, added_records, new_record,
  update_spent, update_all, set_spent, new_block, delete_after, unspend_after,
}
use tad_blockchain.FullNode.CoinStore.Undo.{UpTo}
use tad_blockchain.Types.BlockRecord.{Coin}
use tad_blockchain.Types.Bytes.{Bytes32}
use tad_blockchain.Types.Conditions.{CoinRecord}
use tad_blockchain.Types.Primitives.{Primitives, name}

-- The fork is at most at the height.
abbrev pub AtMost : ℕ → ℤ → Type 0
AtMost h (negsuc n) = Unit
AtMost h (pos height) = height ≤ h

pub UpTo-mono :
    (g h : ℕ) (db : Dict CoinRecord) → g ≤ h → AllEntries (UpTo g) db → AllEntries (UpTo h) db
UpTo-mono g h [] le rows = tt
UpTo-mono g h (row ∷ db) le rows = (
  (omega (arith, rows.0.0, le), omega (arith, rows.0.1, le), rows.0.2),
  UpTo-mono g h db le rows.1,
)

UpTo-append :
    (h : ℕ) (db : Dict CoinRecord) (key : Bytes32) (r : CoinRecord)
    → UpTo h key r
    → AllEntries (UpTo h) db
    → AllEntries (UpTo h) (db ++ (key, r) ∷ [])
UpTo-append h [] key r new rows = (new, tt)
UpTo-append h (row ∷ db) key r new rows = (rows.0, UpTo-append h db key r new rows.1)

UpTo-update_spent :
    (h index : ℕ) (coin_name : Bytes32) (db : Dict CoinRecord)
    → index ≤ h
    → AllEntries (UpTo h) db
    → AllEntries (UpTo h) (update_spent index coin_name db)
UpTo-update_spent h index coin_name [] le rows = tt
UpTo-update_spent h index coin_name (row ∷ db) le rows = (
  elim (Bool-cases (row.0 == coin_name)) [
    | inl same ↦ rw same (rows.0.0, le, λ unspent. absurd cc)
    | inr other ↦ rw other rows.0
  ],
  UpTo-update_spent h index coin_name db le rows.1,
)

UpTo-update_all :
    (primitives : Primitives) (h index : ℕ) (coin_names : List Bytes32) (db : Dict CoinRecord)
    → index ≤ h
    → AllEntries (UpTo h) db
    → AllEntries (UpTo h) (update_all primitives index coin_names db)
UpTo-update_all primitives h index [] db le rows = rows
UpTo-update_all primitives h index (coin_name ∷ coin_names) db le rows =
    UpTo-update_all primitives h index coin_names (update_spent index coin_name db) le
      (UpTo-update_spent h index coin_name db le rows)

-- After a rollback all rows are up to its height.
rolled_row :
    (f : ℕ) (k : Bytes32) (r : CoinRecord)
    → (r.spent ≡ false → r.spent_block_index ≡ 0)
    → is_after (pos f) r ≡ false
    → UpTo f k (unspent_after (pos f) r)
rolled_row f k r none_yet early = elim (Bool-cases (ltb_ℤ (pos f) (pos r.spent_block_index))) [
  | inl late ↦ rw late (ground (arith, early), omega arith, λ unspent. refl)
  | inr kept ↦ rw kept (ground (arith, early), ground (arith, kept), none_yet)
]

pub UpTo-rolled :
    (h : ℕ) (block_index : ℤ) (bound : ℕ) (db : Dict CoinRecord)
    → AtMost bound block_index
    → AllEntries (UpTo h) db
    → AllEntries (UpTo bound) (unspend_after block_index (delete_after block_index db))
UpTo-rolled h block_index bound [] le rows = tt
UpTo-rolled h (negsuc n) bound (row ∷ db) le rows =
    let late : is_after (negsuc n) row.1 ≡ true = ground arith in
    rw late (UpTo-rolled h (negsuc n) bound db le rows.1)
UpTo-rolled h (pos f) bound (row ∷ db) le rows = elim (Bool-cases (is_after (pos f) row.1)) [
  | inl late ↦ rw late (UpTo-rolled h (pos f) bound db le rows.1)
  | inr early ↦ rw early (
      let (low, spent_low, none_yet) = rolled_row f row.0 row.1 rows.0.2 early in
      (
        (omega (arith, low, le), omega (arith, spent_low, le), none_yet),
        UpTo-rolled h (pos f) bound db le rows.1,
      ))
]

-- New rows of the height, without a spend.
abbrev AllFresh : ℕ → List CoinRecord → Type 0
AllFresh height [] = Unit
AllFresh height (r ∷ records) =
    ((r.confirmed_block_index ≡ height) × (r.spent_block_index ≡ 0)) × AllFresh height records

AllFresh-append :
    (height : ℕ) (front others : List CoinRecord)
    → AllFresh height front
    → AllFresh height others
    → AllFresh height (front ++ others)
AllFresh-append height [] others fresh fresh' = fresh'
AllFresh-append height (r ∷ front) others fresh fresh' =
    (fresh.0, AllFresh-append height front others fresh.1 fresh')

module _ (primitives : Primitives) where
  new_record-AllFresh :
      (height timestamp : ℕ) (coinbase : Bool) (coins : List Coin)
      → AllFresh height (map (new_record primitives height timestamp coinbase) coins)
  new_record-AllFresh height timestamp coinbase [] = tt
  new_record-AllFresh height timestamp coinbase (coin ∷ coins) =
      ((refl, refl), new_record-AllFresh height timestamp coinbase coins)

  added_records-AllFresh :
      (height timestamp : ℕ) (rewards tx_additions : List Coin)
      → AllFresh height (added_records primitives height timestamp rewards tx_additions)
  added_records-AllFresh height timestamp rewards tx_additions =
      AllFresh-append height (map (new_record primitives height timestamp false) tx_additions)
        (map (new_record primitives height timestamp true) rewards)
        (new_record-AllFresh height timestamp false tx_additions)
        (new_record-AllFresh height timestamp true rewards)

  UpTo-insert_rows :
      (h height : ℕ) (records : List CoinRecord) (db : Dict CoinRecord)
      → height ≤ h
      → AllFresh height records
      → AllEntries (UpTo h) db
      → IfReturns (insert_rows primitives records db) (AllEntries (UpTo h))
  unfolding insert_rows
  UpTo-insert_rows h height [] db le fresh rows = rows
  UpTo-insert_rows h height (r ∷ records) db le fresh rows =
      IfReturns-bind (insert_row (name primitives r.coin) r db) _ _ _
        (IfReturns-self (insert_row (name primitives r.coin) r db))
        (λ next e. UpTo-insert_rows h height records next le fresh.1 (
          subst (AllEntries (UpTo h)) (sym (insert_row_lem (name primitives r.coin) r db next e).1)
            (UpTo-append h db (name primitives r.coin) r
              (rw fresh.0.0 le, rw fresh.0.1 (omega arith), λ unspent. fresh.0.1) rows)))

  -- A block keeps the rows up to every height that it is not above.
  pub UpTo-new_block :
      (s : CoinStore) (h height timestamp : ℕ) (rewards tx_additions : List Coin)
      (tx_removals : List Bytes32)
      → height ≤ h
      → AllEntries (UpTo h) s.coin_record_db
      → IfReturns
          (new_block primitives s height timestamp rewards tx_additions tx_removals)
          (λ r. AllEntries (UpTo h) r.1.coin_record_db)
  unfolding new_block add_coin_records set_spent
  UpTo-new_block s h height timestamp rewards tx_additions tx_removals le rows =
      let records = added_records primitives height timestamp rewards tx_additions in
      IfReturns-after (assert (if height == 0 then length rewards == 0 else leb 2 (length rewards)))
        _ _
        (λ _.
          IfReturns-bind (add_coin_records primitives s records) _
            (λ s'. AllEntries (UpTo h) s'.coin_record_db) _
            (IfReturns-bind (insert_rows primitives records s.coin_record_db) _ _ _
              (UpTo-insert_rows h height records s.coin_record_db le
                (added_records-AllFresh height timestamp rewards tx_additions) rows)
              (λ db kept. kept))
            (λ s' kept. UpTo-update_all primitives h height tx_removals s'.coin_record_db le kept))
