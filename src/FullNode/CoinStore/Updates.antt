-- ===== src/FullNode/CoinStore/Updates.antt =====
-- A new block keeps the agreement of the cache and the table.
use mathlib.Core.Option
use mathlib.Core.Path.{subst}
use tad_blockchain.Base.{
  ℕ, ◌≡◌, refl, sym, ap, ◌∙◌, Bool, false, Option, none, some, List, [], ◌∷◌, arith, ◌==◌, ==_iff,
  leb, length, if◌then◌else◌, Bool-cases, inl, inr,
}
use tad_blockchain.Base.Dict.{Dict, Distinct, lookup, lookup-append_new, append_new-Distinct}
use tad_blockchain.Base.Result.{
  ok, IfReturns, IfReturns-bind, IfReturns-after, IfReturns-self, assert,
}
use tad_blockchain.Base.Table.{
  insert_row, insert_row_lem, map_rows, lookup-map_rows, map_rows-Distinct, rows_where,
  rows_where-Distinct, kept_found, lookup-rows_where,
}
use tad_blockchain.FullNode.CoinStore.{
  CoinStore, put_records, insert_rows, add_coin_records, added_records, spent_at, update_spent,
  mark_spent, set_spent, new_block,
}
use tad_blockchain.FullNode.CoinStore.Coherent.{Caches, IsTable, IsStore, put-Caches, get-Caches}
use tad_blockchain.Types.BlockRecord.{Coin}
use tad_blockchain.Types.Bytes.{Bytes32}
use tad_blockchain.Types.Conditions.{CoinRecord}
use tad_blockchain.Types.Primitives.{Primitives, name}
use tad_blockchain.Util.LruCache.{LruCache, get, put}
use tad_blockchain.Util.LruCache.Lookups.{put-capacity, put_found}
use tad_blockchain.Util.LruCache.Recency.{put-IsLru, get_lem}

-- The change of a row by `_set_spent`.
abbrev spent_row : ℕ → Bytes32 → ℕ → CoinRecord → CoinRecord
spent_row index coin_name key r = if key == coin_name then spent_at index r else r

module _ (primitives : Primitives) where
  pub map_rows-IsTable :
      (f : ℕ → CoinRecord → CoinRecord) (db : Dict CoinRecord)
      → ((k : ℕ) (r : CoinRecord) → (f k r).coin ≡ r.coin)
      → IsTable primitives db
      → IsTable primitives (map_rows f db)
  map_rows-IsTable f db same table = record {
    once = map_rows-Distinct f db table.once;
    named = λ k r' found. named_row k r' (lookup k db) refl (sym (lookup-map_rows f k db) ∙ found);
  }
    where
      named_row :
          (k : ℕ) (r' : CoinRecord) (row : Option CoinRecord)
          → lookup k db ≡ row
          → Option.map (f k) row ≡ some r'
          → name primitives r'.coin ≡ k
      named_row k r' none e found = absurd cc
      named_row k r' (some r) e found =
          let new : f k r ≡ r' = cc in
          ap (λ (x : CoinRecord). name primitives x.coin) (sym new)
          ∙ ap (name primitives) (same k r)
          ∙ table.named k r e

  pub rows_where-IsTable :
      (test : CoinRecord → Bool) (db : Dict CoinRecord)
      → IsTable primitives db
      → IsTable primitives (rows_where test db)
  rows_where-IsTable test db table = record {
    once = rows_where-Distinct test db table.once;
    named = λ k r found.
        table.named k r
          (kept_found test (lookup k db) r (sym (lookup-rows_where test k db table.once) ∙ found));
  }

  spent-coin :
      (index : ℕ) (coin_name key : ℕ) (r : CoinRecord)
      → (spent_row index coin_name key r).coin ≡ r.coin
  spent-coin index coin_name key r = ground arith

  updated_row :
      (index : ℕ) (coin_name k : Bytes32) (db : Dict CoinRecord) (r : CoinRecord)
      → lookup k db ≡ some r
      → lookup k (update_spent index coin_name db) ≡ some (spent_row index coin_name k r)
  updated_row index coin_name k db r row =
      lookup-map_rows (spent_row index coin_name) k db
      ∙ ap (Option.map (spent_row index coin_name k)) row

  mark_found :
      (cache : LruCache CoinRecord) (db : Dict CoinRecord) (index : ℕ) (coin_name : Bytes32)
      (found : Option CoinRecord)
      → Caches primitives cache db
      → IsTable primitives db
      → lookup coin_name cache.cache ≡ found
      → Caches primitives
          (mark_spent primitives index (found, cache))
          (update_spent index coin_name db)
  mark_found cache db index coin_name none caches table e = record {
    lru = caches.lru;
    room = caches.room;
    coherent = λ k r held. elim (Bool-cases (k == coin_name)) [
      | inl same ↦
          let at : k ≡ coin_name = (==_iff k coin_name).0 same in
          let both : some r ≡ none = sym held ∙ ap (λ j. lookup j cache.cache) at ∙ e in absurd cc
      | inr other ↦ updated_row index coin_name k db r (caches.coherent k r held) ∙ rw other refl
    ];
  }
  mark_found cache db index coin_name (some r0) caches table e =
      let row = caches.coherent coin_name r0 e in
      let named : name primitives r0.coin ≡ coin_name = table.named coin_name r0 row in
      record {
        lru = put-IsLru cache (name primitives r0.coin) (spent_at index r0) caches.lru;
        room = rw (put-capacity cache (name primitives r0.coin) (spent_at index r0)) caches.room;
        coherent = λ k r held.
            elim (put_found cache (name primitives r0.coin) k (spent_at index r0) r caches.lru
              caches.room held) [
                | inl (same, new) ↦
                    let at : coin_name ≡ k = sym named ∙ same in
                    updated_row index coin_name k db r0 (ap (λ j. lookup j db) (sym at) ∙ row)
                    ∙ rw ((==_iff k coin_name).1 (sym at)) (ap some new)
                | inr (other, old) ↦
                    let differ : (k == coin_name) ≡ false = ground (arith, other, named) in
                    updated_row index coin_name k db r (caches.coherent k r old) ∙ rw differ refl
              ];
      }

  -- One name of `_set_spent`, in the cache and in the table.
  mark_spent-Caches :
      (cache : LruCache CoinRecord) (db : Dict CoinRecord) (index : ℕ) (coin_name : Bytes32)
      → Caches primitives cache db
      → IsTable primitives db
      → Caches primitives
          (mark_spent primitives index (get cache coin_name))
          (update_spent index coin_name db)
  mark_spent-Caches cache db index coin_name caches table =
      let (lru, answer, same) = get_lem cache coin_name coin_name caches.lru in
      mark_found (get cache coin_name).1 db index coin_name (get cache coin_name).0
        (get-Caches primitives cache db coin_name caches) table (same ∙ sym answer)

  pub set_spent-IsStore :
      (s : CoinStore) (coin_names : List Bytes32) (index : ℕ)
      → IsStore primitives s
      → IsStore primitives (set_spent primitives s coin_names index)
  unfolding set_spent
  set_spent-IsStore s [] index store = record { caches = store.caches; table = store.table }
  set_spent-IsStore s (coin_name ∷ coin_names) index store =
      set_spent-IsStore
        (record {
          coin_record_cache = mark_spent primitives index (get s.coin_record_cache coin_name);
          coin_record_db = update_spent index coin_name s.coin_record_db;
        })
        coin_names index
        (record {
          caches =
              mark_spent-Caches s.coin_record_cache s.coin_record_db index coin_name store.caches
                store.table;
          table =
              map_rows-IsTable (spent_row index coin_name) s.coin_record_db
                (spent-coin index coin_name) store.table;
        })

  -- A row that is inserted and put into the cache.
  insert_row-IsTable :
      (r : CoinRecord) (db after : Dict CoinRecord)
      → IsTable primitives db
      → insert_row (name primitives r.coin) r db ≡ ok after
      → IsTable primitives after
        × ((k : Bytes32)
            → lookup k after ≡ (if name primitives r.coin == k then some r else lookup k db))
        × (lookup (name primitives r.coin) db ≡ none)
  insert_row-IsTable r db after table e =
      let key = name primitives r.coin in
      let (fresh, new) = insert_row_lem key r db after e in
      let look : (k : Bytes32) → lookup k after ≡ (if key == k then some r else lookup k db) =
        λ k. ap (lookup k) new ∙ lookup-append_new k key r db fresh in
      (
        record {
          once = subst Distinct (sym new) (append_new-Distinct key r db fresh table.once);
          named = λ k r' found. elim (Bool-cases (key == k)) [
            | inl same ↦
                let at : some r ≡ some r' = sym (look k ∙ rw same refl) ∙ found in
                let eq : r ≡ r' = cc in
                ap (λ (x : CoinRecord). name primitives x.coin) (sym eq) ∙ (==_iff key k).0 same
            | inr other ↦ table.named k r' (sym (look k ∙ rw other refl) ∙ found)
          ];
        },
        look,
        fresh,
      )

  -- The cache agrees with the table after a row is added.
  grown-Caches :
      (cache : LruCache CoinRecord) (db after : Dict CoinRecord) (key : Bytes32) (r : CoinRecord)
      → Caches primitives cache db
      → ((k : Bytes32) → lookup k after ≡ (if key == k then some r else lookup k db))
      → lookup key db ≡ none
      → Caches primitives cache after
  grown-Caches cache db after key r caches look fresh = record {
    lru = caches.lru;
    room = caches.room;
    coherent = λ k r' held. elim (Bool-cases (key == k)) [
      | inl same ↦
          let both : none ≡ some r' =
            sym fresh ∙ ap (λ j. lookup j db) ((==_iff key k).0 same) ∙ caches.coherent k r' held in
          absurd cc
      | inr other ↦ look k ∙ rw other (caches.coherent k r' held)
    ];
  }

  insert_rows-Caches :
      (records : List CoinRecord) (cache : LruCache CoinRecord) (db : Dict CoinRecord)
      → IsTable primitives db
      → Caches primitives cache db
      → IfReturns (insert_rows primitives records db) (λ after.
        IsTable primitives after × Caches primitives (put_records primitives records cache) after)
  unfolding insert_rows
  insert_rows-Caches [] cache db table caches = (table, caches)
  insert_rows-Caches (r ∷ records) cache db table caches =
      IfReturns-bind (insert_row (name primitives r.coin) r db) _ _ _
        (IfReturns-self (insert_row (name primitives r.coin) r db))
        (λ after e.
          let (table', look, fresh) = insert_row-IsTable r db after table e in
          insert_rows-Caches records (put cache (name primitives r.coin) r) after table' (
            put-Caches primitives cache after (name primitives r.coin) r
              (grown-Caches cache db after (name primitives r.coin) r caches look fresh)
              (look (name primitives r.coin) ∙ ground arith)))

  add_coin_records-IsStore :
      (s : CoinStore) (records : List CoinRecord)
      → IsStore primitives s
      → IfReturns (add_coin_records primitives s records) (IsStore primitives)
  unfolding add_coin_records
  add_coin_records-IsStore s records store =
      IfReturns-bind (insert_rows primitives records s.coin_record_db) _ _ _
        (insert_rows-Caches records s.coin_record_cache s.coin_record_db store.table store.caches)
        (λ db h. record { caches = h.1; table = h.0 })

  -- A block that is added keeps the agreement of the cache and the table, unless it is refused.
  pub new_block-IsStore :
      (s : CoinStore) (height timestamp : ℕ) (rewards tx_additions : List Coin)
      (tx_removals : List Bytes32)
      → IsStore primitives s
      → IfReturns
          (new_block primitives s height timestamp rewards tx_additions tx_removals)
          (λ r. IsStore primitives r.1)
  unfolding new_block
  new_block-IsStore s height timestamp rewards tx_additions tx_removals store =
      IfReturns-after (assert (if height == 0 then length rewards == 0 else leb 2 (length rewards)))
        _ _
        (λ _.
          IfReturns-bind
            (add_coin_records primitives s
              (added_records primitives height timestamp rewards tx_additions))
            _ (IsStore primitives) _ (add_coin_records-IsStore s _ store)
            (λ s' store'. set_spent-IsStore s' tx_removals height store'))
