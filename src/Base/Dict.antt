-- ===== src/Base/Dict.antt =====
-- A Python dict keyed by numbers, in the order of insertion.
use tad_blockchain.Base.{
  ℕ, ◌≡◌, refl, ◌≢◌, Bool, true, false, Option, none, some, List, [], ◌∷◌, ◌++◌, arith, ◌==◌,
  if◌then◌else◌, Bool-cases, ==_iff, inl, inr, ap, sym, ◌∙◌,
}

abbrev pub Dict {ℓ} : Type ℓ → Type ℓ
Dict V = List (ℕ × V)

module _ {ℓ} {V : Type ℓ} where
  -- `d.get(key)`
  abbrev pub lookup : ℕ → Dict V → Option V
  lookup key [] = none
  lookup key (entry ∷ rest) = if entry.0 == key then some entry.1 else lookup key rest

  -- `key in d`
  abbrev pub contains : ℕ → Dict V → Bool
  contains key entries = elim (lookup key entries) [ some _ ↦ true | none ↦ false ]

  -- `d.pop(key, None)`
  abbrev pub erase : ℕ → Dict V → Dict V
  erase key [] = []
  erase key (entry ∷ rest) = if entry.0 == key then rest else entry ∷ erase key rest

  -- `d[key] = value`: a key that is there keeps its place.
  abbrev pub insert : ℕ → V → Dict V → Dict V
  insert key value [] = (key, value) ∷ []
  insert key value (entry ∷ rest) =
      if entry.0 == key then (key, value) ∷ rest else entry ∷ insert key value rest

  pub lookup-insert :
      (key new : ℕ) (value : V) (entries : Dict V)
      → lookup key (insert new value entries)
        ≡ (if new == key then some value else lookup key entries)
  lookup-insert key new value [] = refl
  lookup-insert key new value (entry ∷ rest) = ground (arith, lookup-insert key new value rest)

  pub lookup-insert_self :
      (key : ℕ) (value : V) (entries : Dict V) → lookup key (insert key value entries) ≡ some value
  lookup-insert_self key value entries =
      lookup-insert key key value entries ∙ rw ((==_iff key key).1 refl) refl

  pub lookup-erase_ne :
      (key gone : ℕ) (entries : Dict V)
      → gone ≢ key
      → lookup key (erase gone entries) ≡ lookup key entries
  lookup-erase_ne key gone [] other = refl
  lookup-erase_ne key gone (entry ∷ rest) other =
      ground (arith, lookup-erase_ne key gone rest other)

module _ {V : Type 0} where
  -- No key stands twice.
  abbrev pub Distinct : Dict V → Type 0
  Distinct [] = Unit
  Distinct (entry ∷ rest) = (lookup entry.0 rest ≡ none) × Distinct rest

  pub lookup-erase_self :
      (key : ℕ) (entries : Dict V) → Distinct entries → lookup key (erase key entries) ≡ none
  lookup-erase_self key [] once = refl
  lookup-erase_self key (entry ∷ rest) once = ground (arith, lookup-erase_self key rest once.1)

  pub erase-Distinct :
      (key : ℕ) (entries : Dict V) → Distinct entries → Distinct (erase key entries)
  erase-Distinct key [] once = tt
  erase-Distinct key (entry ∷ rest) once =
      ground (arith, erase-Distinct key rest once.1, lookup-erase_ne entry.0 key rest)

  pub insert-Distinct :
      (key : ℕ) (value : V) (entries : Dict V)
      → Distinct entries
      → Distinct (insert key value entries)
  insert-Distinct key value [] once = (refl, tt)
  insert-Distinct key value (entry ∷ rest) once =
      ground (arith, insert-Distinct key value rest once.1, lookup-insert entry.0 key value rest)

  pub lookup-append_new :
      (k key : ℕ) (value : V) (entries : Dict V)
      → lookup key entries ≡ none
      → lookup k (entries ++ (key, value) ∷ [])
        ≡ (if key == k then some value else lookup k entries)
  lookup-append_new k key value [] fresh = refl
  lookup-append_new k key value (entry ∷ rest) fresh =
      ground (arith, lookup-append_new k key value rest)

  pub append_new-Distinct :
      (key : ℕ) (value : V) (entries : Dict V)
      → lookup key entries ≡ none
      → Distinct entries
      → Distinct (entries ++ (key, value) ∷ [])
  append_new-Distinct key value [] fresh once = (refl, tt)
  append_new-Distinct key value (entry ∷ rest) fresh once =
      ground (arith, append_new-Distinct key value rest, lookup-append_new entry.0 key value rest)

  pub lookup-erase :
      (k key : ℕ) (entries : Dict V)
      → Distinct entries
      → lookup k (erase key entries) ≡ (if key == k then none else lookup k entries)
  lookup-erase k key entries once =
      ground (arith, lookup-erase_ne k key entries, lookup-erase_self key entries once)

  -- Every entry satisfies the predicate.
  abbrev pub AllEntries : (ℕ → V → Type 0) → Dict V → Type 0
  AllEntries P [] = Unit
  AllEntries P (entry ∷ rest) = P entry.0 entry.1 × AllEntries P rest

  -- What holds of all that is found holds of all entries.
  pub found-AllEntries :
      (P : ℕ → V → Type 0) (entries : Dict V)
      → Distinct entries
      → ((k : ℕ) (v : V) → lookup k entries ≡ some v → P k v)
      → AllEntries P entries
  found-AllEntries P [] once found = tt
  found-AllEntries P (entry ∷ rest) once found = (
    found entry.0 entry.1 (ground arith),
    found-AllEntries P rest once.1 (λ k v e. found k v (elim (Bool-cases (entry.0 == k)) [
      | inl same ↦
          let at : lookup k rest ≡ none =
            ap (λ j. lookup j rest) (sym ((==_iff entry.0 k).0 same)) ∙ once.0 in
          let both : some v ≡ none = sym e ∙ at in absurd cc
      | inr other ↦ rw other e
    ])),
  )
