-- ===== src/Tests/Caches.antt =====
-- A cache of two entries.
use tad_blockchain.Base.{ℕ, ◌≡◌, refl, some, none, [], ◌∷◌, arith, ◌==◌, if◌then◌else◌}
use tad_blockchain.Base.Dict.{lookup}
use tad_blockchain.Util.LruCache.{LruCache, init, get, put}
use tad_blockchain.Util.LruCache.Recency.{IsLru, evicts, put-lookup}

abbrev pair : LruCache ℕ
pair = record { cache = (1, 10) ∷ (2, 20) ∷ []; capacity = 2 }

pair-IsLru : IsLru pair
pair-IsLru = ((refl, (refl, tt)), omega arith)

filled : put (put (init 2) 1 10) 2 20 ≡ pair
unfolding put
filled = refl

-- The first key is used, and the second one leaves.
second_leaves : (put (get pair 1).1 3 30).cache ≡ (1, 10) ∷ (3, 30) ∷ []
unfolding put get
second_leaves = refl

put-lookup_example :
    lookup 1 (put pair 3 30).cache
    ≡ (if 3 == 1 then some 30 else if evicts pair 3 1 then none else lookup 1 pair.cache)
put-lookup_example = put-lookup pair 3 1 30 pair-IsLru (omega arith)
