-- ===== src/Base/Sets.antt =====
-- A Python set of numbers: a list whose order is of no account.
use tad_blockchain.Base.{
  ℕ, ◌≡◌, refl, Bool, false, not, ◌&&◌, ◌||◌, List, [], ◌∷◌, arith, ◌==◌, Bool-cases, inl, inr,
  if◌then◌else◌,
}

abbrev pub Set : Type 0
Set = List ℕ

-- `x in s`
abbrev pub member : ℕ → Set → Bool
member x [] = false
member x (y ∷ s) = y == x || member x s

-- `s.add(x)`
abbrev pub add : ℕ → Set → Set
add x s = if member x s then s else x ∷ s

-- `s.remove(x)`, where x is there.
abbrev pub remove : ℕ → Set → Set
remove x [] = []
remove x (y ∷ s) = let rest = remove x s in if y == x then rest else y ∷ rest

pub member-add : (x y : ℕ) (s : Set) → member y (add x s) ≡ (x == y || member y s)
member-add x y s = elim (Bool-cases (x == y)) [
  | inl same ↦
      let e : x ≡ y = ground arith in
      rw (same, e)
        (elim (Bool-cases (member y s)) [
          | inl here ↦ rw (here, here) refl
          | inr out ↦ rw out (ground arith)
        ])
  | inr differ ↦ elim (Bool-cases (member x s)) [
    | inl here ↦ rw (differ, here) refl
    | inr out ↦ rw (differ, out, differ) refl
  ]
]

pub member-remove : (x y : ℕ) (s : Set) → member y (remove x s) ≡ (not (x == y) && member y s)
member-remove x y [] = ground arith
member-remove x y (z ∷ s) = ground (arith, member-remove x y s)
