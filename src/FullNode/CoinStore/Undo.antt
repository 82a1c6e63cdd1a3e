-- ===== src/FullNode/CoinStore/Undo.antt =====
-- A rollback undoes the block that was added last.
use mathlib.Core.Path.{subst}
use tad_blockchain.Base.{
  ℕ, ◌<◌, ◌≤◌, ◌≡◌, ◌⊎◌, refl, sym, ap, ◌∙◌, Bool, true, false, some, List, [], ◌∷◌, ◌++◌, map,
  arith, ◌==◌, ==_iff, leb, length, if◌then◌else◌, Bool-cases, inl, inr,
}
use tad_blockchain.Base.Dict.{Dict, Distinct, lookup, AllEntries, found-AllEntries}
use tad_blockchain.Base.Int.{pos, ltb_ℤ}
use tad_blockchain.Base.Result.{
  ok, IfReturns, IfReturns-bind, IfReturns-after, IfReturns-self, IfReturns-mono, IfReturns-ok,
  Returns, Returns-mono, assert,
}
use tad_blockchain.Base.Table.{insert_row, insert_row_lem}
use tad_blockchain.FullNode.CoinStore.{
  CoinStore, is_after, insert_rows, add_coin_records, added_records, new_record, spent_at,
  unspent_after, update_spent, update_all, set_spent, new_block, rollback_to_block, delete_after,
  unspend_after,
}
use tad_blockchain.FullNode.CoinStore.Coherent.{IsStore}
use tad_blockchain.FullNode.CoinStore.Updates.{new_block-IsStore}
use tad_blockchain.FullNode.CoinStore.Rollback.{rollback_to_block-IsStore}
use tad_blockchain.Types.BlockRecord.{Coin}
use tad_blockchain.Types.Bytes.{Bytes32}
use tad_blockchain.Types.Conditions.{CoinRecord}
use tad_blockchain.Types.Primitives.{Primitives, name}

-- The row is of a block up to the height: created there, and spent there where it is spent at all.
abbrev pub UpTo : ℕ → ℕ → CoinRecord → Type 0
UpTo h k r =
    (r.confirmed_block_index ≤ h)
    × (r.spent_block_index ≤ h)
    × (r.spent ≡ false → r.spent_block_index ≡ 0)

-- The coins of the names have no spend yet, where they have a row.
abbrev pub AllUnspent : Dict CoinRecord → List Bytes32 → Type 0
AllUnspent db [] = Unit
AllUnspent db (coin_name ∷ coin_names) =
    ((r : CoinRecord) → lookup coin_name db ≡ some r → r.spent ≡ false) × AllUnspent db coin_names

-- What the block of the height makes of a row: nothing, or a spend of a coin that had none.
abbrev Step : ℕ → CoinRecord → CoinRecord → Type 0
Step height before after =
    (after ≡ before) ⊎ ((after ≡ spent_at height before) × (before.spent ≡ false))

-- The table after is the table before with some coins spent, and rows of the height behind it.
abbrev Grown : ℕ → Dict CoinRecord → Dict CoinRecord → Type 0
Grown height [] after = AllEntries (λ k r. r.confirmed_block_index ≡ height) after
Grown height (row ∷ db) [] = ⊥
Grown height (row ∷ db) (row' ∷ after) =
    (row.0 ≡ row'.0) × Step height row.1 row'.1 × Grown height db after

Grown-refl : (height : ℕ) (db : Dict CoinRecord) → Grown height db db
Grown-refl height [] = tt
Grown-refl height (row ∷ db) = (refl, inl refl, Grown-refl height db)

Grown-append :
    (height : ℕ) (db after : Dict CoinRecord) (key : Bytes32) (r : CoinRecord)
    → r.confirmed_block_index ≡ height
    → Grown height db after
    → Grown height db (after ++ (key, r) ∷ [])
Grown-append height [] [] key r new grown = (new, tt)
Grown-append height [] (row' ∷ after) key r new grown =
    (grown.0, Grown-append height [] after key r new grown.1)
Grown-append height (row ∷ db) [] key r new grown = absurd grown
Grown-append height (row ∷ db) (row' ∷ after) key r new grown =
    (grown.0, grown.1, Grown-append height db after key r new grown.2)

spent-Step :
    (height : ℕ) (before after : CoinRecord)
    → before.spent ≡ false
    → Step height before after
    → Step height before (spent_at height after)
spent-Step height before after unspent (inl same) = inr (ap (spent_at height) same, unspent)
spent-Step height before after unspent (inr (spent, _)) = inr (ap (spent_at height) spent, unspent)

Grown-update_spent :
    (height : ℕ) (coin_name : Bytes32) (db after : Dict CoinRecord)
    → AllEntries (λ k r. k ≡ coin_name → r.spent ≡ false) db
    → Grown height db after
    → Grown height db (update_spent height coin_name after)
Grown-update_spent height coin_name [] [] unspent grown = tt
Grown-update_spent height coin_name [] (row' ∷ after) unspent grown =
    (ground (arith, grown.0), Grown-update_spent height coin_name [] after unspent grown.1)
Grown-update_spent height coin_name (row ∷ db) [] unspent grown = absurd grown
Grown-update_spent height coin_name (row ∷ db) (row' ∷ after) unspent grown = (
  grown.0,
  elim (Bool-cases (row'.0 == coin_name)) [
    | inl same ↦ rw same (
        spent-Step height row.1 row'.1 (unspent.0 (grown.0 ∙ (==_iff row'.0 coin_name).0 same))
          grown.1)
    | inr other ↦ rw other grown.1
  ],
  Grown-update_spent height coin_name db after unspent.1 grown.2,
)

Grown-update_all :
    (primitives : Primitives) (height : ℕ) (coin_names : List Bytes32) (db after : Dict CoinRecord)
    → Distinct db
    → AllUnspent db coin_names
    → Grown height db after
    → Grown height db (update_all primitives height coin_names after)
Grown-update_all primitives height [] db after once unspent grown = grown
Grown-update_all primitives height (coin_name ∷ coin_names) db after once unspent grown =
    Grown-update_all primitives height coin_names db (update_spent height coin_name after) once
      unspent.1
      (Grown-update_spent height coin_name db after
        (found-AllEntries (λ k r. k ≡ coin_name → r.spent ≡ false) db once
          (λ k r found at. unspent.0 r (ap (λ j. lookup j db) (sym at) ∙ found)))
        grown)

-- Rows of a later height are all deleted.
undo_new :
    (h height : ℕ) (after : Dict CoinRecord)
    → h < height
    → AllEntries (λ k r. r.confirmed_block_index ≡ height) after
    → unspend_after (pos h) (delete_after (pos h) after) ≡ []
undo_new h height [] later new = refl
undo_new h height (row ∷ after) later new =
    ground (arith, new.0, undo_new h height after later new.1)

not_later : (a b : ℕ) → b ≤ a → ltb_ℤ (pos a) (pos b) ≡ false
not_later a b le = ground (arith, le)

later_than : (a b : ℕ) → a < b → ltb_ℤ (pos a) (pos b) ≡ true
later_than a b lt = ground (arith, lt)

-- A record without a spend is the record whose spend is reset.
restored :
    (r : CoinRecord)
    → r.spent ≡ false
    → r.spent_block_index ≡ 0
    → (record r { spent_block_index = 0; spent = false }) ≡ r
restored r unspent none_yet = rw (← none_yet, ← unspent) refl

undo_row :
    (h height : ℕ) (k : Bytes32) (before after : CoinRecord)
    → h < height
    → UpTo h k before
    → Step height before after
    → (is_after (pos h) after ≡ false) × (unspent_after (pos h) after ≡ before)
undo_row h height k before after later (confirmed, spent, none_yet) (inl same) =
    (not_later h _ (rw same confirmed), rw (same, not_later h before.spent_block_index spent) refl)
undo_row h height k before after later (confirmed, spent, none_yet) (inr (same, unspent)) = (
  not_later h _ (rw same confirmed),
  rw (same, later_than h height later) (restored before unspent (none_yet unspent)),
)

undo-Grown :
    (h height : ℕ) (db after : Dict CoinRecord)
    → h < height
    → AllEntries (UpTo h) db
    → Grown height db after
    → unspend_after (pos h) (delete_after (pos h) after) ≡ db
undo-Grown h height [] after later old grown = undo_new h height after later grown
undo-Grown h height (row ∷ db) [] later old grown = absurd grown
undo-Grown h height (row ∷ db) (row' ∷ after) later old grown =
    let (early, undone) = undo_row h height row.0 row.1 row'.1 later old.0 grown.1 in
    rw early (
      ap (λ l. (row'.0, unspent_after (pos h) row'.1) ∷ l)
        (undo-Grown h height db after later old.1 grown.2)
      ∙ ap (λ r. (row'.0, r) ∷ db) undone
      ∙ ap (λ k. (k, row.1) ∷ db) (sym grown.0))

abbrev pub AllAt : ℕ → List CoinRecord → Type 0
AllAt height [] = Unit
AllAt height (r ∷ records) = (r.confirmed_block_index ≡ height) × AllAt height records

AllAt-append :
    (height : ℕ) (first second : List CoinRecord)
    → AllAt height first
    → AllAt height second
    → AllAt height (first ++ second)
AllAt-append height [] second at at' = at'
AllAt-append height (r ∷ first) second at at' = (at.0, AllAt-append height first second at.1 at')

module _ (primitives : Primitives) where
  new_record-AllAt :
      (height timestamp : ℕ) (coinbase : Bool) (coins : List Coin)
      → AllAt height (map (new_record primitives height timestamp coinbase) coins)
  new_record-AllAt height timestamp coinbase [] = tt
  new_record-AllAt height timestamp coinbase (coin ∷ coins) =
      (refl, new_record-AllAt height timestamp coinbase coins)

  pub added_records-AllAt :
      (height timestamp : ℕ) (rewards tx_additions : List Coin)
      → AllAt height (added_records primitives height timestamp rewards tx_additions)
  added_records-AllAt height timestamp rewards tx_additions =
      AllAt-append height (map (new_record primitives height timestamp false) tx_additions)
        (map (new_record primitives height timestamp true) rewards)
        (new_record-AllAt height timestamp false tx_additions)
        (new_record-AllAt height timestamp true rewards)

  Grown-insert_rows :
      (height : ℕ) (db after : Dict CoinRecord) (records : List CoinRecord)
      → AllAt height records
      → Grown height db after
      → IfReturns (insert_rows primitives records after) (Grown height db)
  unfolding insert_rows
  Grown-insert_rows height db after [] at grown = grown
  Grown-insert_rows height db after (r ∷ records) at grown =
      IfReturns-bind (insert_row (name primitives r.coin) r after) _ _ _
        (IfReturns-self (insert_row (name primitives r.coin) r after))
        (λ next e. Grown-insert_rows height db next records at.1 (
          subst (Grown height db) (sym (insert_row_lem (name primitives r.coin) r after next e).1)
            (Grown-append height db after (name primitives r.coin) r at.0 grown)))

  Grown-new_block :
      (s : CoinStore) (height timestamp : ℕ) (rewards tx_additions : List Coin)
      (tx_removals : List Bytes32)
      → Distinct s.coin_record_db
      → AllUnspent s.coin_record_db tx_removals
      → IfReturns
          (new_block primitives s height timestamp rewards tx_additions tx_removals)
          (λ r. Grown height s.coin_record_db r.1.coin_record_db)
  unfolding new_block add_coin_records set_spent
  Grown-new_block s height timestamp rewards tx_additions tx_removals once unspent =
      let records = added_records primitives height timestamp rewards tx_additions in
      IfReturns-after (assert (if height == 0 then length rewards == 0 else leb 2 (length rewards)))
        _ _
        (λ _.
          IfReturns-bind (add_coin_records primitives s records) _
            (λ s'. Grown height s.coin_record_db s'.coin_record_db) _
            (IfReturns-bind (insert_rows primitives records s.coin_record_db) _ _ _
              (Grown-insert_rows height s.coin_record_db s.coin_record_db records
                (added_records-AllAt height timestamp rewards tx_additions)
                (Grown-refl height s.coin_record_db))
              (λ db grown. grown))
            (λ s' grown.
              Grown-update_all primitives height tx_removals s.coin_record_db s'.coin_record_db once
                unspent grown))

  -- A rollback to an earlier height undoes a block that was added: the table is what it was, where its
  -- rows are of blocks up to that height and the block spends no coin twice.
  pub rollback_to_block-new_block :
      (s : CoinStore) (h height timestamp : ℕ) (rewards tx_additions : List Coin)
      (tx_removals : List Bytes32)
      → IsStore primitives s
      → h < height
      → AllEntries (UpTo h) s.coin_record_db
      → AllUnspent s.coin_record_db tx_removals
      → IfReturns (new_block primitives s height timestamp rewards tx_additions tx_removals) (λ r.
        Returns
          (rollback_to_block primitives r.1 (pos h))
          (λ r'. r'.1.coin_record_db ≡ s.coin_record_db))
  rollback_to_block-new_block s h height timestamp rewards tx_additions tx_removals store later old
        unspent =
      let m = new_block primitives s height timestamp rewards tx_additions tx_removals in
      IfReturns-mono m (λ r. m ≡ ok r) _ (IfReturns-self m)
        (λ r e.
          Returns-mono (rollback_to_block primitives r.1 (pos h)) _ _
            (λ r' done.
              done.1
              ∙ undo-Grown h height s.coin_record_db r.1.coin_record_db later old (
                  IfReturns-ok m r _ e (
                    Grown-new_block s height timestamp rewards tx_additions tx_removals
                      store.table.once unspent)))
            (rollback_to_block-IsStore primitives (pos h) r.1 (
              IfReturns-ok m r _ e (
                new_block-IsStore primitives s height timestamp rewards tx_additions tx_removals
                  store))))
