-- ===== src/Base/Table.antt =====
-- A table of a database: a dict whose keys are the primary key, with SQL's statements on it.
use mathlib.Core.Option
use tad_blockchain.Base.{
  ℕ, ◌≡◌, refl, ap, ◌∙◌, sym, Bool, Option, none, some, List, [], ◌∷◌, ◌++◌, arith, ◌==◌,
  if◌then◌else◌, Bool-cases, ==_iff, inl, inr,
}
use tad_blockchain.Base.Dict.{Dict, Distinct, contains, lookup}
use tad_blockchain.Base.Result.{Result, ok, raise, integrity_error}

module _ {V : Type 0} where
  -- `INSERT`: a key that is there is refused.
  unfoldable pub insert_row : ℕ → V → Dict V → Result (Dict V)
  insert_row key value db =
      if contains key db then raise integrity_error else ok (db ++ (key, value) ∷ [])

  -- `UPDATE`, of the value in each row by its key and its value.
  abbrev pub map_rows : (ℕ → V → V) → Dict V → Dict V
  map_rows f [] = []
  map_rows f (row ∷ db) = (row.0, f row.0 row.1) ∷ map_rows f db

  -- The rows `WHERE` a test holds, in the order of insertion; SQL leaves the order open where the
  -- statement has no `ORDER BY`.
  abbrev pub rows_where : (V → Bool) → Dict V → Dict V
  rows_where test [] = []
  rows_where test (row ∷ db) =
      let rest = rows_where test db in if test row.1 then row ∷ rest else rest

  abbrev pub values : Dict V → List V
  values [] = []
  values (row ∷ db) = row.1 ∷ values db

  pub lookup-map_rows :
      (f : ℕ → V → V) (k : ℕ) (db : Dict V)
      → lookup k (map_rows f db) ≡ Option.map (f k) (lookup k db)
  lookup-map_rows f k [] = refl
  lookup-map_rows f k (row ∷ db) = elim (Bool-cases (row.0 == k)) [
    | inl same ↦ rw same (ap (λ j. some (f j row.1)) ((==_iff row.0 k).0 same))
    | inr other ↦ rw other (lookup-map_rows f k db)
  ]

  pub map_rows-Distinct : (f : ℕ → V → V) (db : Dict V) → Distinct db → Distinct (map_rows f db)
  map_rows-Distinct f [] once = tt
  map_rows-Distinct f (row ∷ db) once =
      (lookup-map_rows f row.0 db ∙ ap (Option.map (f row.0)) once.0, map_rows-Distinct f db once.1)

  lookup-rows_where-none :
      (test : V → Bool) (k : ℕ) (db : Dict V)
      → lookup k db ≡ none
      → lookup k (rows_where test db) ≡ none
  lookup-rows_where-none test k [] out = refl
  lookup-rows_where-none test k (row ∷ db) out = ground (arith, lookup-rows_where-none test k db)

  -- The row of a key where it passes the test.
  abbrev pub kept : (V → Bool) → Option V → Option V
  kept test none = none
  kept test (some v) = if test v then some v else none

  pub kept_found :
      (test : V → Bool) (row : Option V) (v : V) → kept test row ≡ some v → row ≡ some v
  kept_found test none v e = e
  kept_found test (some w) v e = ground (arith, e)

  pub lookup-rows_where :
      (test : V → Bool) (k : ℕ) (db : Dict V)
      → Distinct db
      → lookup k (rows_where test db) ≡ kept test (lookup k db)
  lookup-rows_where test k [] once = refl
  lookup-rows_where test k (row ∷ db) once = elim (Bool-cases (row.0 == k)) [
    | inl same ↦
        let out : lookup k db ≡ none =
          ap (λ j. lookup j db) (sym ((==_iff row.0 k).0 same)) ∙ once.0 in
        ground (arith, same, lookup-rows_where-none test k db out)
    | inr other ↦ ground (arith, other, lookup-rows_where test k db once.1)
  ]

  pub rows_where-Distinct :
      (test : V → Bool) (db : Dict V) → Distinct db → Distinct (rows_where test db)
  rows_where-Distinct test [] once = tt
  rows_where-Distinct test (row ∷ db) once =
      ground
        (arith, rows_where-Distinct test db once.1, lookup-rows_where-none test row.0 db once.0)

  -- What an insertion gives that is not refused.
  pub insert_row_lem :
      (key : ℕ) (value : V) (db after : Dict V)
      → insert_row key value db ≡ ok after
      → (lookup key db ≡ none) × (after ≡ db ++ (key, value) ∷ [])
  unfolding insert_row
  insert_row_lem key value db after e = (ground (arith, e), ground (arith, e))
