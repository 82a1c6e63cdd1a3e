-- ===== src/Util/LruCache.antt =====
-- tad/util/lru_cache.py: a cache of bounded size. The entries of the `OrderedDict` are listed from the
-- least recently used to the most recently used.
pub mod Recency
pub mod Lookups
use tad_blockchain.Base.{
  ℕ, Bool, true, false, Option, none, some, List, [], ◌∷◌, ◌++◌, ltb, if◌then◌else◌, length,
}
use tad_blockchain.Base.Dict.{Dict, lookup, insert, erase}
use tad_blockchain.Base.Result.{Result, ok, key_error, ◌>>=◌, or_raise}

pub record LruCache {ℓ} (V : Type ℓ) : Type ℓ where
  pub cache : Dict V
  pub capacity : ℕ

module _ {ℓ} {V : Type ℓ} where
  abbrev pub init : ℕ → LruCache V
  init capacity = record { cache = []; capacity = capacity }

  -- `move_to_end(key)` of a key that is there with the value.
  abbrev pub move_to_end : ℕ → V → Dict V → Dict V
  move_to_end key value entries = erase key entries ++ (key, value) ∷ []

  -- `popitem(last=False)`, of a dict that is not empty.
  abbrev pub pop_first : Dict V → Dict V
  pop_first [] = []
  pop_first (entry ∷ rest) = rest

  -- The value, and the cache after the call.
  abbrev pub answer : LruCache V → ℕ → Option V → Option V × LruCache V
  answer self key none = (none, self)
  answer self key (some value) =
      (some value, record self { cache = move_to_end key value self.cache })

  unfoldable pub get : LruCache V → ℕ → Option V × LruCache V
  get self key = answer self key (lookup key self.cache)

  unfoldable pub put : LruCache V → ℕ → V → LruCache V
  put self key value =
      let entries = move_to_end key value (insert key value self.cache) in
      record self {
        cache = if ltb self.capacity (length entries) then pop_first entries else entries;
      }

  -- `pop` raises for a key that is not there.
  unfoldable pub remove : LruCache V → ℕ → Result (LruCache V)
  remove self key = do
    value ← or_raise (lookup key self.cache) key_error
    ok (record self { cache = erase key self.cache })
