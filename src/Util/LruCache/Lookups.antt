-- ===== src/Util/LruCache/Lookups.antt =====
-- Look-ups after an entry is put into the cache.
use tad_blockchain.Base.{
  ℕ, ◌+◌, ◌<◌, ◌≡◌, ◌⊎◌, refl, sym, ◌∙◌, false, Option, none, some, arith, ◌==◌, ==_iff,
  if◌then◌else◌, length, Bool-cases, inl, inr,
}
use tad_blockchain.Base.Dict.{lookup, erase}
use tad_blockchain.Util.LruCache.{LruCache, answer, get, put}
use tad_blockchain.Util.LruCache.Recency.{IsLru, evicts, put-lookup, length-erase}

module _ {V : Type 0} where
  pub put-capacity :
      (self : LruCache V) (key : ℕ) (value : V) → (put self key value).capacity ≡ self.capacity
  unfolding put
  put-capacity self key value = refl

  answer-capacity :
      (self : LruCache V) (key : ℕ) (found : Option V)
      → (answer self key found).1.capacity ≡ self.capacity
  answer-capacity self key none = refl
  answer-capacity self key (some value) = refl

  pub get-capacity : (self : LruCache V) (key : ℕ) → (get self key).1.capacity ≡ self.capacity
  unfolding get
  get-capacity self key = answer-capacity self key (lookup key self.cache)

  -- What is found after `put` is the new entry or was found before.
  pub put_found :
      (self : LruCache V) (key k : ℕ) (value found : V)
      → IsLru self
      → 0 < self.capacity
      → lookup k (put self key value).cache ≡ some found
      → ((key ≡ k) × (value ≡ found)) ⊎ (((key == k) ≡ false) × (lookup k self.cache ≡ some found))
  put_found self key k value found lru room e =
      let split = sym (put-lookup self key k value lru room) ∙ e in
      elim (Bool-cases (key == k)) [
        | inl same ↦ inl ((==_iff key k).0 same, cc)
        | inr other ↦ elim (Bool-cases (evicts self key k)) [
          | inl gone ↦ absurd cc
          | inr stays ↦ inr (other, cc)
        ]
      ]

  -- `put` of a key that is there replaces its value, and no entry leaves.
  pub put_present :
      (self : LruCache V) (key k : ℕ) (value before : V)
      → IsLru self
      → lookup key self.cache ≡ some before
      → lookup k (put self key value).cache ≡ (if key == k then some value else lookup k self.cache)
  put_present self key k value before (once, small) there =
      let size : length (erase key self.cache) + 1 ≡ length self.cache =
        rw (← length-erase key self.cache, there) refl in
      let stays : evicts self key k ≡ false = ground (arith, small, size) in
      put-lookup self key k value (once, small) (omega arith) ∙ rw stays refl
