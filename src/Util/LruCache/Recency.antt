-- ===== src/Util/LruCache/Recency.antt =====
-- A cache has at most as many entries as its capacity, each key once, and loses no entry but the
-- least recently used one.
use tad_blockchain.Base.{
  ℕ, suc, ◌+◌, ◌≤◌, ◌<◌, ◌≡◌, refl, ap, ◌∙◌, Bool, false, Option, none, some, [], ◌∷◌, ◌++◌, arith,
  ltb, ◌==◌, ◌&&◌, if◌then◌else◌, length, Bool-cases, inl, inr,
}
use tad_blockchain.Base.Dict.{
  Dict, lookup, insert, erase, Distinct, lookup-erase_ne, lookup-erase_self, erase-Distinct,
  lookup-append_new, append_new-Distinct,
}
use tad_blockchain.Base.Result.{Returns}
use tad_blockchain.Util.LruCache.{LruCache, move_to_end, pop_first, answer, get, put, remove}

module _ {V : Type 0} where
  abbrev pub IsLru : LruCache V → Type 0
  IsLru self = Distinct self.cache × (length self.cache ≤ self.capacity)

  erase-insert :
      (key : ℕ) (value : V) (entries : Dict V)
      → erase key (insert key value entries) ≡ erase key entries
  erase-insert key value [] = ground arith
  erase-insert key value (entry ∷ rest) = ground (arith, erase-insert key value rest)

  -- What `put` keeps of the other entries, and the new one at the end.
  abbrev pub updated : ℕ → V → Dict V → Dict V
  updated key value entries = erase key entries ++ (key, value) ∷ []

  length-append_new :
      (key : ℕ) (value : V) (entries : Dict V)
      → length (entries ++ (key, value) ∷ []) ≡ suc (length entries)
  length-append_new key value [] = refl
  length-append_new key value (entry ∷ rest) = omega (arith, length-append_new key value rest)

  pub length-erase :
      (key : ℕ) (entries : Dict V)
      → length (erase key entries) + (elim (lookup key entries) [ some _ ↦ 1 | none ↦ 0 ])
        ≡ length entries
  length-erase key [] = refl
  length-erase key (entry ∷ rest) = ground (arith, length-erase key rest)

  -- The entries before the oldest one may leave.
  put_entries :
      (key : ℕ) (value : V) (entries : Dict V)
      → move_to_end key value (insert key value entries) ≡ updated key value entries
  put_entries key value entries = ap (λ l. l ++ (key, value) ∷ []) (erase-insert key value entries)

  updated-Distinct :
      (key : ℕ) (value : V) (entries : Dict V)
      → Distinct entries
      → Distinct (updated key value entries)
  updated-Distinct key value entries once =
      append_new-Distinct key value (erase key entries) (lookup-erase_self key entries once)
        (erase-Distinct key entries once)

  pop_first-Distinct : (entries : Dict V) → Distinct entries → Distinct (pop_first entries)
  pop_first-Distinct [] once = tt
  pop_first-Distinct (entry ∷ rest) once = once.1

  length-pop_first :
      (entries : Dict V) (n : ℕ) → length entries ≤ suc n → length (pop_first entries) ≤ n
  length-pop_first [] n le = omega arith
  length-pop_first (entry ∷ rest) n le = omega arith

  pub length-erase-le : (key : ℕ) (entries : Dict V) → length (erase key entries) ≤ length entries
  length-erase-le key entries = omega (arith, length-erase key entries)

  -- Putting an entry keeps the keys distinct and the size within the capacity.
  pub put-IsLru :
      (self : LruCache V) (key : ℕ) (value : V) → IsLru self → IsLru (put self key value)
  unfolding put
  put-IsLru self key value (once, small) =
      let size : length (updated key value self.cache) ≤ suc self.capacity = omega (
        arith,
        length-append_new key value (erase key self.cache),
        length-erase-le key self.cache,
      ) in
      rw (put_entries key value self.cache)
        (elim (Bool-cases (ltb self.capacity (length (updated key value self.cache)))) [
          | inl over ↦ rw over (
            pop_first-Distinct _ (updated-Distinct key value self.cache once),
            length-pop_first (updated key value self.cache) self.capacity size,
          )
          | inr fits ↦ rw fits (updated-Distinct key value self.cache once, ground (arith, fits))
        ])

  -- The least recently used key of the entries.
  abbrev pub is_first : ℕ → Dict V → Bool
  is_first k [] = false
  is_first k (entry ∷ rest) = entry.0 == k

  -- Whether putting one key makes the other leave: the cache is full of other keys, and that one is
  -- the least recently used.
  abbrev pub evicts : LruCache V → ℕ → ℕ → Bool
  evicts self key k =
      ltb self.capacity (suc (length (erase key self.cache))) && is_first k (erase key self.cache)

  lookup-pop_first :
      (k key : ℕ) (value : V) (entries : Dict V)
      → 0 < length entries
      → Distinct entries
      → lookup key entries ≡ none
      → lookup k (pop_first (entries ++ (key, value) ∷ []))
        ≡ (if key == k then some value else if is_first k entries then none else lookup k entries)
  lookup-pop_first k key value [] some_left once fresh = absurd (omega arith)
  lookup-pop_first k key value (entry ∷ rest) some_left once fresh =
      ground (arith, lookup-append_new k key value rest)

  -- After an entry is put into a cache that can hold one, the look-up gives its value for its key,
  -- nothing for the key that had to leave, and what it gave before for every other key.
  pub put-lookup :
      (self : LruCache V) (key k : ℕ) (value : V)
      → IsLru self
      → 0 < self.capacity
      → lookup k (put self key value).cache
        ≡ (if key == k then some value else if evicts self key k then none else lookup k self.cache)
  unfolding put
  put-lookup self key k value (once, small) room =
      let kept = erase key self.cache in
      let fresh = lookup-erase_self key self.cache once in
      let others = lookup-erase_ne k key self.cache in
      rw (put_entries key value self.cache, length-append_new key value kept)
        (elim (Bool-cases (ltb self.capacity (suc (length kept)))) [
          | inl over ↦ rw over (
              lookup-pop_first k key value kept (ground (arith, over, room))
                (erase-Distinct key self.cache once) fresh
              ∙ ground (arith, others))
          | inr fits ↦ rw fits (lookup-append_new k key value kept fresh ∙ ground (arith, others))
        ])

  answer_lem :
      (self : LruCache V) (key k : ℕ) (found : Option V)
      → IsLru self
      → lookup key self.cache ≡ found
      → IsLru (answer self key found).1
        × ((answer self key found).0 ≡ found)
        × (lookup k (answer self key found).1.cache ≡ lookup k self.cache)
  answer_lem self key k none lru e = (lru, refl, refl)
  answer_lem self key k (some value) (once, small) e =
      let kept = erase key self.cache in
      let size : length kept + 1 ≡ length self.cache = rw (← length-erase key self.cache, e) refl in
      (
        (
          updated-Distinct key value self.cache once,
          omega (arith, length-append_new key value kept),
        ),
        refl,
        lookup-append_new k key value kept (lookup-erase_self key self.cache once)
            ∙ ground (arith, lookup-erase_ne k key self.cache, e),
      )

  -- `get` gives what the cache has for the key, and a cache with the same entries, each key once and
  -- within the capacity.
  pub get_lem :
      (self : LruCache V) (key k : ℕ)
      → IsLru self
      → IsLru (get self key).1
        × ((get self key).0 ≡ lookup key self.cache)
        × (lookup k (get self key).1.cache ≡ lookup k self.cache)
  unfolding get
  get_lem self key k lru = answer_lem self key k (lookup key self.cache) lru refl

  -- `remove` of a key that is there takes its entry away and leaves the others.
  pub remove_lem :
      (self : LruCache V) (key k : ℕ) (value : V)
      → IsLru self
      → lookup key self.cache ≡ some value
      → Returns (remove self key) (λ after.
        IsLru after × (lookup k after.cache ≡ (if key == k then none else lookup k self.cache)))
  unfolding remove
  remove_lem self key k value (once, small) found = rw found (
    (erase-Distinct key self.cache once, omega (arith, length-erase-le key self.cache)),
    ground (arith, lookup-erase_ne k key self.cache, lookup-erase_self key self.cache once),
  )
