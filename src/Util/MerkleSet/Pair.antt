-- ===== src/Util/MerkleSet/Pair.antt =====
-- MiddleNode and _make_middle on the nodes of a trie.
use mathlib.Core.Path.{subst}
use native.Mathlib.Nat.{div-one, div-add-mod', le-div_iff_mul-le, pow-succ'}
use tad_blockchain.Base.{
  ℕ, zero, suc, ◌+◌, ◌*◌, ◌/◌, ◌%◌, ◌^◌, ◌≤◌, ◌<◌, ◌≡◌, refl, ◌∙◌, ap, arith, false, ◌||◌, ◌==◌,
  leb, Bool-cases, or_false, inl, inr,
}
use tad_blockchain.Base.Result.{ok, Returns, Returns-ok}
use tad_blockchain.Types.Bytes.{Bytes, Bytes32}
use tad_blockchain.Util.MerkleSet.Nodes.{
  Node, empty_node, terminal_node, middle_node, truncated_node, new_middle, make_middle,
}
use tad_blockchain.Util.MerkleSet.Trie.{
  size, member, IsTrie, next_prefix, get_bit_lem, is_double_lem,
}

power_positive : (n : ℕ) → 0 < 2 ^ n
power_positive zero = omega arith
power_positive (suc n) = omega (arith, power_positive n, pow-succ' 2 n)

div-power-le : (n a b : ℕ) → a ≤ b → a / 2 ^ n ≤ b / 2 ^ n
div-power-le n a b le =
    (le-div_iff_mul-le (power_positive n)).1 (omega (arith, div-add-mod' a (2 ^ n)))

module _ (sha256 : Bytes → Bytes32) where
  -- On two halves with two hashes at least `MiddleNode` raises nothing.
  new_middle-Returns :
      (rest prefix : ℕ) (l r : Node)
      → IsTrie sha256 rest (2 * prefix) l
      → IsTrie sha256 rest (2 * prefix + 1) r
      → 2 ≤ size l + size r
      → Returns (new_middle sha256 l r) (λ n. (h : Bytes32) × (n ≡ middle_node l r h))
  unfolding new_middle
  new_middle-Returns rest prefix (truncated_node g) r left right two = absurd left
  new_middle-Returns rest prefix l (truncated_node g) left right two = absurd right
  new_middle-Returns rest prefix empty_node empty_node left right two = absurd (omega arith)
  new_middle-Returns rest prefix empty_node (terminal_node b) left right two = absurd (omega arith)
  new_middle-Returns rest prefix (terminal_node a) empty_node left right two = absurd (omega arith)
  new_middle-Returns rest prefix empty_node (middle_node l r g) left right two =
      rw
        (
          is_double_lem sha256 rest (2 * prefix + 1) (middle_node l r g) right (omega arith),
          Returns,
        )
        (elim (Bool-cases (size l + size r == 2)) [
          | inl double ↦ rw (double, Returns) (_, refl)
          | inr more ↦ rw (more, Returns) (_, refl)
        ])
  new_middle-Returns rest prefix (middle_node l r g) empty_node left right two =
      rw (is_double_lem sha256 rest (2 * prefix) (middle_node l r g) left (omega arith), Returns)
        (elim (Bool-cases (size l + size r == 2)) [
          | inl double ↦ rw (double, Returns) (_, refl)
          | inr more ↦ rw (more, Returns) (_, refl)
        ])
  new_middle-Returns rest prefix (terminal_node a) (terminal_node b) left right two =
      let order : leb b a ≡ false = elim (Bool-cases (leb b a)) [
        | inr above ↦ above
        | inl below ↦
            let le : b ≤ a = ground arith in
            let quotients : b / 2 ^ rest ≤ a / 2 ^ rest = div-power-le rest b a le in
            absurd (omega arith)
      ] in
      rw (order, Returns) (_, refl)
  new_middle-Returns rest prefix (terminal_node a) (middle_node l r g) left right two = (_, refl)
  new_middle-Returns rest prefix (middle_node l r g) (terminal_node b) left right two = (_, refl)
  new_middle-Returns rest prefix (middle_node l r g) (middle_node l' r' g') left right two =
      (_, refl)

  -- The same as a step from the halves to the whole.
  pub new_middle-IsTrie :
      (rest prefix : ℕ) (l r : Node)
      → IsTrie sha256 rest (2 * prefix) l
      → IsTrie sha256 rest (2 * prefix + 1) r
      → 2 ≤ size l + size r
      → (h : Bytes32) × (new_middle sha256 l r ≡ ok (middle_node l r h))
        × IsTrie sha256 (suc rest) prefix (middle_node l r h)
  new_middle-IsTrie rest prefix l r left right two =
      let (n, made, (h, is)) =
        Returns-ok (new_middle sha256 l r) _ (new_middle-Returns rest prefix l r left right two) in
      let made' : new_middle sha256 l r ≡ ok (middle_node l r h) = made ∙ ap ok is in
      (h, made', (left, right, two, made'))

  -- The node of two hashes is the trie of both.
  abbrev pub IsPair : ℕ → ℕ → Bytes32 → Bytes32 → Node → Type 0
  IsPair rest prefix a b n =
      IsTrie sha256 rest prefix n × (size n ≡ 2) × ((x : Bytes32) → member x n ≡ (x == a || x == b))

  pub make_middle-IsPair :
      (fuel rest depth prefix : ℕ) (a b : Bytes32)
      → a / 2 ^ rest ≡ prefix
      → b / 2 ^ rest ≡ prefix
      → a < b
      → depth + rest ≡ 256
      → rest < fuel
      → Returns (make_middle sha256 fuel a b depth) (IsPair rest prefix a b)
  unfolding make_middle
  make_middle-IsPair zero rest depth prefix a b pa pb order total enough = absurd (omega arith)
  make_middle-IsPair (suc fuel) zero depth prefix a b pa pb order total enough =
      absurd (omega (arith, div-one a, div-one b))
  make_middle-IsPair (suc fuel) (suc rest) depth prefix a b pa pb order total enough =
      let bit_a = a / 2 ^ rest % 2 in
      let bit_b = b / 2 ^ rest % 2 in
      elim (Bool-cases (bit_a == bit_b)) [
        | inr differ ↦
            let le : a / 2 ^ rest ≤ b / 2 ^ rest = div-power-le rest a b (omega arith) in
            let bits : bit_a ≤ bit_b =
              omega (arith, next_prefix a rest, next_prefix b rest, pa, pb, le) in
            let lower : bit_a < bit_b = ground arith in
            let zero_a : a / 2 ^ rest ≡ 2 * prefix = omega (arith, next_prefix a rest, pa, lower) in
            let one_b : b / 2 ^ rest ≡ 2 * prefix + 1 =
              omega (arith, next_prefix b rest, pb, lower) in
            let (h, made, trie) =
              new_middle-IsTrie rest prefix (terminal_node a) (terminal_node b) zero_a one_b
                (omega arith) in
            rw
              (
                get_bit_lem a rest depth total,
                get_bit_lem b rest depth total,
                differ,
                made,
                Returns,
              )
              (trie, refl, λ x. refl)
        | inl same ↦
            let e : bit_a ≡ bit_b = ground arith in
            let at_a : a / 2 ^ rest ≡ 2 * prefix + bit_a = omega (arith, next_prefix a rest, pa) in
            let at_b : b / 2 ^ rest ≡ 2 * prefix + bit_a =
              omega (arith, next_prefix b rest, pb, e) in
            let (n, nested, (trie, two, has)) =
              Returns-ok (make_middle sha256 fuel a b (depth + 1)) _ (
                make_middle-IsPair fuel rest (depth + 1) (2 * prefix + bit_a) a b at_a at_b order
                  (omega arith) (omega arith)) in
            elim (Bool-cases (bit_a == 0)) [
              | inl low ↦
                  let here : 2 * prefix + bit_a ≡ 2 * prefix = ground arith in
                  let (h, made, whole) =
                    new_middle-IsTrie rest prefix n empty_node
                      (subst (λ q. IsTrie sha256 rest q n) here trie) tt (omega (arith, two)) in
                  rw
                    (
                      get_bit_lem a rest depth total,
                      get_bit_lem b rest depth total,
                      same,
                      nested,
                      low,
                      made,
                      Returns,
                    )
                    (whole, omega (arith, two), λ x. or_false (member x n) ∙ has x)
              | inr high ↦
                  let here : 2 * prefix + bit_a ≡ 2 * prefix + 1 = ground arith in
                  let (h, made, whole) =
                    new_middle-IsTrie rest prefix empty_node n tt
                      (subst (λ q. IsTrie sha256 rest q n) here trie) (omega (arith, two)) in
                  rw
                    (
                      get_bit_lem a rest depth total,
                      get_bit_lem b rest depth total,
                      same,
                      nested,
                      high,
                      made,
                      Returns,
                    )
                    (whole, omega (arith, two), λ x. has x)
            ]
      ]
