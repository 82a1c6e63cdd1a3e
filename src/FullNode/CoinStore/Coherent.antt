-- ===== src/FullNode/CoinStore/Coherent.antt =====
-- The cache agrees with the table, so that a look-up answers as the table does.
use tad_blockchain.Base.{◌<◌, ◌≡◌, refl, sym, ap, ◌∙◌, Option, none, some, inl, inr}
use tad_blockchain.Base.Dict.{Dict, Distinct, lookup}
use tad_blockchain.FullNode.CoinStore.{CoinStore, get_coin_record, cached_or_row, fetched}
use tad_blockchain.Types.Bytes.{Bytes32}
use tad_blockchain.Types.Conditions.{CoinRecord}
use tad_blockchain.Types.Primitives.{Primitives, name}
use tad_blockchain.Util.LruCache.{LruCache, get, put}
use tad_blockchain.Util.LruCache.Lookups.{put-capacity, get-capacity, put_found}
use tad_blockchain.Util.LruCache.Recency.{IsLru, put-IsLru, get_lem}

module _ (primitives : Primitives) where
  -- Every record of the cache is the row of its key.
  pub record Caches (cache : LruCache CoinRecord) (db : Dict CoinRecord) : Type 0 where
    pub lru : IsLru cache
    pub room : 0 < cache.capacity
    pub coherent :
        (k : Bytes32) (r : CoinRecord) → lookup k cache.cache ≡ some r → lookup k db ≡ some r

  -- Each key stands once and is the name of its row's coin.
  pub record IsTable (db : Dict CoinRecord) : Type 0 where
    pub once : Distinct db
    pub named : (k : Bytes32) (r : CoinRecord) → lookup k db ≡ some r → name primitives r.coin ≡ k

  pub record IsStore (s : CoinStore) : Type 0 where
    pub caches : Caches s.coin_record_cache s.coin_record_db
    pub table : IsTable s.coin_record_db

  pub put-Caches :
      (cache : LruCache CoinRecord) (db : Dict CoinRecord) (key : Bytes32) (v : CoinRecord)
      → Caches cache db
      → lookup key db ≡ some v
      → Caches (put cache key v) db
  put-Caches cache db key v caches row = record {
    lru = put-IsLru cache key v caches.lru;
    room = rw (put-capacity cache key v) caches.room;
    coherent = λ k r found. elim (put_found cache key k v r caches.lru caches.room found) [
      | inl (same, new) ↦ ap (λ j. lookup j db) (sym same) ∙ row ∙ ap some new
      | inr (other, old) ↦ caches.coherent k r old
    ];
  }

  pub get-Caches :
      (cache : LruCache CoinRecord) (db : Dict CoinRecord) (key : Bytes32)
      → Caches cache db
      → Caches (get cache key).1 db
  get-Caches cache db key caches = record {
    lru = (get_lem cache key key caches.lru).0;
    room = rw (get-capacity cache key) caches.room;
    coherent = λ k r found. caches.coherent k r (sym (get_lem cache key k caches.lru).2 ∙ found);
  }

  fetched-Caches :
      (cache : LruCache CoinRecord) (db : Dict CoinRecord) (key : Bytes32) (row : Option CoinRecord)
      → Caches cache db
      → IsTable db
      → lookup key db ≡ row
      → Caches (fetched primitives cache row) db
  fetched-Caches cache db key none caches table e = caches
  fetched-Caches cache db key (some r) caches table e =
      put-Caches cache db (name primitives r.coin) r caches
        (ap (λ j. lookup j db) (table.named key r e) ∙ e)

  cached_or_row_lem :
      (s : CoinStore) (key : Bytes32) (found : Option CoinRecord) (cache : LruCache CoinRecord)
      → IsStore s
      → found ≡ lookup key s.coin_record_cache.cache
      → Caches cache s.coin_record_db
      → ((cached_or_row primitives s key (found, cache)).0 ≡ lookup key s.coin_record_db)
        × ((cached_or_row primitives s key (found, cache)).1.coin_record_db ≡ s.coin_record_db)
        × IsStore (cached_or_row primitives s key (found, cache)).1
  cached_or_row_lem s key none cache store e caches = (
    refl,
    refl,
    record {
      caches =
          fetched-Caches cache s.coin_record_db key (lookup key s.coin_record_db) caches store.table
            refl;
      table = store.table;
    },
  )
  cached_or_row_lem s key (some r) cache store e caches = (
    sym (store.caches.coherent key r (sym e)),
    refl,
    record { caches = caches; table = store.table },
  )

  -- A look-up gives the table's row for the name, whatever the cache holds, and keeps the table and
  -- the agreement of the two.
  pub get_coin_record_lem :
      (s : CoinStore) (coin_name : Bytes32)
      → IsStore s
      → ((get_coin_record primitives s coin_name).0 ≡ lookup coin_name s.coin_record_db)
        × ((get_coin_record primitives s coin_name).1.coin_record_db ≡ s.coin_record_db)
        × IsStore (get_coin_record primitives s coin_name).1
  unfolding get_coin_record
  get_coin_record_lem s coin_name store =
      cached_or_row_lem s coin_name _ _ store
        (get_lem s.coin_record_cache coin_name coin_name store.caches.lru).1
        (get-Caches s.coin_record_cache s.coin_record_db coin_name store.caches)
