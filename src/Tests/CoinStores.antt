-- ===== src/Tests/CoinStores.antt =====
-- A coin store to which two blocks are added and from which one is rolled back.
use tad_blockchain.Base.{ℕ, ◌≡◌, ap, sym, refl, Bool, true, false, some, [], ◌∷◌, ◌++◌, map, arith}
use tad_blockchain.Base.Dict.{lookup}
use tad_blockchain.Base.Int.{pos}
use tad_blockchain.Base.Result.{ok, IfReturns, IfReturns-ok, Returns}
use tad_blockchain.FullNode.CoinStore.{
  CoinStore, new_record, spent_at, get_coin_record, new_block, rollback_to_block, unspend_after,
  delete_after, confirmed_after, insert_rows, add_coin_records, set_spent,
}
use tad_blockchain.FullNode.CoinStore.Added.{get_coins_added_at_height-new_block}
use tad_blockchain.FullNode.CoinStore.Changes.{forgotten, rollback_to_block-changes}
use tad_blockchain.FullNode.CoinStore.Coherent.{IsStore, get_coin_record_lem}
use tad_blockchain.FullNode.CoinStore.Queries.{
  get_coins_added_at_height, get_coins_removed_at_height,
}
use tad_blockchain.FullNode.CoinStore.Rollback.{rollback_to_block-IsStore}
use tad_blockchain.FullNode.CoinStore.Undo.{rollback_to_block-new_block}
use tad_blockchain.FullNode.CoinStore.Updates.{new_block-IsStore}
use tad_blockchain.Tests.Bodies.{primitives}
use tad_blockchain.Types.BlockRecord.{Coin}
use tad_blockchain.Types.Bytes.{from_bytes, to_bytes}
use tad_blockchain.Types.Conditions.{CoinRecord}
use tad_blockchain.Types.Primitives.{name}
use tad_blockchain.Util.LruCache.{get, put}

abbrev pub empty_store : CoinStore
empty_store = record {
  coin_record_cache = record { cache = []; capacity = 3 };
  coin_record_db = [];
}

empty_store-IsStore : IsStore primitives empty_store
empty_store-IsStore = record {
  caches = record {
    lru = (tt, omega arith);
    room = omega arith;
    coherent = λ k r found. absurd cc;
  };
  table = record { once = tt; named = λ k r found. absurd cc };
}

abbrev coin : ℕ → Coin
coin amount = record { parent_coin_info = 1; puzzle_hash = 2; amount = amount }

abbrev row : ℕ → Bool → ℕ → ℕ × CoinRecord
row height coinbase amount =
    (name primitives (coin amount), new_record primitives height 100 coinbase (coin amount))

-- The first block only has its rewards, and the second spends one of them.
abbrev first_store : CoinStore
first_store = record {
  coin_record_cache = record { cache = row 1 true 7 ∷ row 1 true 8 ∷ []; capacity = 3 };
  coin_record_db = row 1 true 7 ∷ row 1 true 8 ∷ [];
}

first_added :
    new_block primitives empty_store 1 100 (coin 7 ∷ coin 8 ∷ []) [] []
    ≡ ok ((row 1 true 7).1 ∷ (row 1 true 8).1 ∷ [], first_store)
unfolding new_block add_coin_records insert_rows set_spent put name from_bytes to_bytes
first_added = refl

first_store-IsStore : IsStore primitives first_store
first_store-IsStore =
    IfReturns-ok (new_block primitives empty_store 1 100 (coin 7 ∷ coin 8 ∷ []) [] []) _
      (λ r. IsStore primitives r.1) first_added
      (new_block-IsStore primitives empty_store 1 100 (coin 7 ∷ coin 8 ∷ []) [] []
        empty_store-IsStore)

-- The cache has no room for all that the second block adds.
abbrev pub second_store : CoinStore
second_store = record {
  coin_record_cache = record {
    cache = row 2 false 5 ∷ row 2 true 9 ∷ row 2 true 10 ∷ [];
    capacity = 3;
  };
  coin_record_db =
      (name primitives (coin 7), spent_at 2 (row 1 true 7).1)
      ∷ row 1 true 8
      ∷ row 2 false 5
      ∷ row 2 true 9
      ∷ row 2 true 10
      ∷ [];
}

second_added :
    new_block primitives first_store 2 100
      (coin 9 ∷ coin 10 ∷ [])
      (coin 5 ∷ [])
      (name primitives (coin 7) ∷ [])
    ≡ ok ((row 2 false 5).1 ∷ (row 2 true 9).1 ∷ (row 2 true 10).1 ∷ [], second_store)
unfolding new_block add_coin_records insert_rows set_spent put get name from_bytes to_bytes
second_added = refl

pub second_store-IsStore : IsStore primitives second_store
second_store-IsStore =
    IfReturns-ok
      (new_block primitives first_store 2 100 (coin 9 ∷ coin 10 ∷ []) (coin 5 ∷ [])
        (name primitives (coin 7) ∷ []))
      _ (λ r. IsStore primitives r.1) second_added
      (new_block-IsStore primitives first_store 2 100 (coin 9 ∷ coin 10 ∷ []) (coin 5 ∷ [])
        (name primitives (coin 7) ∷ []) first_store-IsStore)

new_block-IsStore_example :
    IfReturns
      (new_block primitives empty_store 1 100 (coin 7 ∷ coin 8 ∷ []) [] [])
      (λ r. IsStore primitives r.1)
new_block-IsStore_example =
    new_block-IsStore primitives empty_store 1 100 (coin 7 ∷ coin 8 ∷ []) [] [] empty_store-IsStore

-- The record left the cache and is found in the table.
get_coin_record_lem_example :
    ((get_coin_record primitives second_store (name primitives (coin 8))).0
      ≡ lookup (name primitives (coin 8)) second_store.coin_record_db)
    × ((get_coin_record primitives second_store (name primitives (coin 8))).1.coin_record_db
        ≡ second_store.coin_record_db)
    × IsStore primitives (get_coin_record primitives second_store (name primitives (coin 8))).1
get_coin_record_lem_example =
    get_coin_record_lem primitives second_store (name primitives (coin 8)) second_store-IsStore

rollback_to_block-IsStore_example :
    Returns (rollback_to_block primitives second_store (pos 1)) (λ r.
      IsStore primitives r.1
      × (r.1.coin_record_db
          ≡ unspend_after (pos 1) (delete_after (pos 1) second_store.coin_record_db)))
rollback_to_block-IsStore_example =
    rollback_to_block-IsStore primitives (pos 1) second_store second_store-IsStore

rollback_to_block-changes_example :
    Returns
      (rollback_to_block primitives second_store (pos 1))
      (λ r. r.0 ≡ map forgotten (confirmed_after (pos 1) second_store.coin_record_db))
rollback_to_block-changes_example =
    rollback_to_block-changes primitives second_store (pos 1) second_store-IsStore

-- The coin 7 becomes unspent, and the call does not tell of it.
told_of :
    map
      (λ (r : CoinRecord). r.coin)
      (map forgotten (confirmed_after (pos 1) second_store.coin_record_db))
    ≡ coin 5 ∷ coin 9 ∷ coin 10 ∷ []
told_of = refl

first_unspent :
    (r : CoinRecord)
    → lookup (name primitives (coin 7)) first_store.coin_record_db ≡ some r
    → r.spent ≡ false
unfolding name from_bytes to_bytes
first_unspent r found =
    let same : (row 1 true 7).1 ≡ r = cc in ap (λ (x : CoinRecord). x.spent) (sym same)

rollback_to_block-new_block_example :
    IfReturns
      (new_block primitives first_store 2 100
        (coin 9 ∷ coin 10 ∷ [])
        (coin 5 ∷ [])
        (name primitives (coin 7) ∷ []))
      (λ r.
        Returns
          (rollback_to_block primitives r.1 (pos 1))
          (λ r'. r'.1.coin_record_db ≡ first_store.coin_record_db))
rollback_to_block-new_block_example =
    rollback_to_block-new_block primitives first_store 1 2 100 (coin 9 ∷ coin 10 ∷ []) (coin 5 ∷ [])
      (name primitives (coin 7) ∷ []) first_store-IsStore (omega arith)
      (
        (omega arith, omega arith, λ unspent. refl),
        ((omega arith, omega arith, λ unspent. refl), tt),
      )
      (first_unspent, tt)

get_coins_added_at_height-new_block_example :
    IfReturns
      (new_block primitives first_store 2 100
        (coin 9 ∷ coin 10 ∷ [])
        (coin 5 ∷ [])
        (name primitives (coin 7) ∷ []))
      (λ r.
        map (λ (found : CoinRecord). found.coin) (get_coins_added_at_height r.1 2)
        ≡ (coin 5 ∷ []) ++ coin 9 ∷ coin 10 ∷ [])
get_coins_added_at_height-new_block_example =
    get_coins_added_at_height-new_block primitives first_store 2 100 (coin 9 ∷ coin 10 ∷ [])
      (coin 5 ∷ []) (name primitives (coin 7) ∷ []) (omega arith, (omega arith, tt))

removed_at_2 :
    map (λ (found : CoinRecord). found.coin) (get_coins_removed_at_height second_store 2)
    ≡ coin 7 ∷ []
unfolding get_coins_removed_at_height
removed_at_2 = refl
