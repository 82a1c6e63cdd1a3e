-- ===== src/Util/MerkleSet/Trie.antt =====
-- What the nodes of a Merkle set stand for: the trie of its hashes, by their bits from the first on.
use native.Mathlib.Nat.{div-div-eq-div-mul, pow-succ'}
use tad_blockchain.Base.{
  ℕ, zero, suc, ◌+◌, ◌-◌, ◌*◌, ◌/◌, ◌%◌, ◌^◌, ◌≤◌, ◌≡◌, refl, sym, ◌∙◌, ap, arith, Bool, true,
  false, ◌||◌, ◌==◌, ltb, Bool-cases, inl, inr,
}
use tad_blockchain.Base.Result.{ok}
use tad_blockchain.Types.Bytes.{Bytes, Bytes32}
use tad_blockchain.Util.MerkleSet.Nodes.{
  Node, empty_node, terminal_node, middle_node, truncated_node, is_double, new_middle, get_bit,
}

-- The number of hashes of a node.
abbrev pub size : Node → ℕ
size empty_node = 0
size (terminal_node h) = 1
size (middle_node l r h) = size l + size r
size (truncated_node h) = 0

abbrev pub member : Bytes32 → Node → Bool
member x empty_node = false
member x (terminal_node h) = x == h
member x (middle_node l r h) = member x l || member x r
member x (truncated_node h) = false

-- The bit after the first ones.
pub next_prefix : (x rest : ℕ) → x / 2 ^ rest ≡ 2 * (x / 2 ^ suc rest) + x / 2 ^ rest % 2
next_prefix x rest =
    let power : 2 ^ rest * 2 ≡ 2 ^ suc rest = omega (arith, pow-succ' 2 rest) in
    let half : x / 2 ^ rest / 2 ≡ x / 2 ^ suc rest =
      div-div-eq-div-mul x (2 ^ rest) 2 ∙ ap (λ (n : ℕ). x / n) power in
    omega (arith, half)

pub get_bit_lem :
    (x rest depth : ℕ) → depth + suc rest ≡ 256 → get_bit x depth ≡ ok (x / 2 ^ rest % 2)
unfolding get_bit
get_bit_lem x rest depth total =
    let inside : ltb depth 256 ≡ true = ground arith in
    let left : 255 - depth ≡ rest = omega arith in rw (inside, left) refl

module _ (sha256 : Bytes → Bytes32) where
  -- The trie of hashes that agree in all bits but the last `rest`, where they are `prefix`. A middle
  -- node has two hashes at least, and the node's own hash is the one that `MiddleNode` computes.
  abbrev pub IsTrie : ℕ → ℕ → Node → Type 0
  IsTrie rest prefix empty_node = Unit
  IsTrie rest prefix (terminal_node h) = h / 2 ^ rest ≡ prefix
  IsTrie rest prefix (truncated_node h) = ⊥
  IsTrie zero prefix (middle_node l r h) = ⊥
  IsTrie (suc rest) prefix (middle_node l r h) =
      IsTrie rest (2 * prefix) l
      × IsTrie rest (2 * prefix + 1) r
      × (2 ≤ size l + size r)
      × (new_middle sha256 l r ≡ ok (middle_node l r h))

  pub member-prefix :
      (rest prefix : ℕ) (node : Node) (x : Bytes32)
      → IsTrie rest prefix node
      → member x node ≡ true
      → x / 2 ^ rest ≡ prefix
  member-prefix rest prefix empty_node x trie here = absurd cc
  member-prefix rest prefix (terminal_node h) x trie here =
      let e : x ≡ h = ground arith in rw e trie
  member-prefix rest prefix (truncated_node h) x trie here = absurd trie
  member-prefix zero prefix (middle_node l r h) x trie here = absurd trie
  member-prefix (suc rest) prefix (middle_node l r h) x (left, right, two, made) here =
      elim (Bool-cases (member x l)) [
        | inl in_left ↦
            omega (arith, member-prefix rest (2 * prefix) l x left in_left, next_prefix x rest)
        | inr out ↦
            let in_right : member x r ≡ true = sym (rw out refl) ∙ here in
            omega
              (arith, member-prefix rest (2 * prefix + 1) r x right in_right, next_prefix x rest)
      ]

  middle-size :
      (rest prefix : ℕ) (l r : Node) (h : Bytes32)
      → IsTrie rest prefix (middle_node l r h)
      → 2 ≤ size l + size r
  middle-size zero prefix l r h trie = absurd trie
  middle-size (suc rest) prefix l r h (left, right, two, made) = two

  pub is_double_lem :
      (rest prefix : ℕ) (node : Node)
      → IsTrie rest prefix node
      → 2 ≤ size node
      → is_double node ≡ ok (size node == 2)
  unfolding is_double
  is_double_lem rest prefix empty_node trie two = absurd (omega arith)
  is_double_lem rest prefix (terminal_node h) trie two = absurd (omega arith)
  is_double_lem rest prefix (truncated_node h) trie two = absurd trie
  is_double_lem zero prefix (middle_node l r h) trie two = absurd trie
  is_double_lem (suc rest) prefix (middle_node empty_node r h) (left, right, _, _) two =
      is_double_lem rest (2 * prefix + 1) r right (omega arith)
      ∙ (let e : size r ≡ 0 + size r = omega arith in ap (λ (n : ℕ). ok (n == 2)) e)
  is_double_lem (suc rest) prefix (middle_node (truncated_node g) r h) (left, right, _, _) two =
      absurd left
  is_double_lem (suc rest) prefix (middle_node l (truncated_node g) h) (left, right, _, _) two =
      absurd right
  is_double_lem (suc rest) prefix (middle_node (terminal_node g) empty_node h) trie two =
      absurd (omega arith)
  is_double_lem (suc rest) prefix (middle_node (terminal_node g) (terminal_node g') h) trie two =
      refl
  is_double_lem (suc rest) prefix (middle_node (terminal_node g) (middle_node l r g') h)
        (left, right, _, _) two =
      let more : 2 ≤ size l + size r = middle-size rest (2 * prefix + 1) l r g' right in
      ground arith
  is_double_lem (suc rest) prefix (middle_node (middle_node l r g) empty_node h) (left, right, _, _)
        two =
      is_double_lem rest (2 * prefix) (middle_node l r g) left (omega arith)
      ∙ (let e : size l + size r ≡ size l + size r + 0 = omega arith in
          ap (λ (n : ℕ). ok (n == 2)) e)
  is_double_lem (suc rest) prefix (middle_node (middle_node l r g) (terminal_node g') h)
        (left, right, _, _) two =
      let more : 2 ≤ size l + size r = middle-size rest (2 * prefix) l r g left in ground arith
  is_double_lem (suc rest) prefix (middle_node (middle_node l r g) (middle_node l' r' g') h)
        (left, right, _, _) two =
      let more : 2 ≤ size l + size r = middle-size rest (2 * prefix) l r g left in
      let more' : 2 ≤ size l' + size r' = middle-size rest (2 * prefix + 1) l' r' g' right in
      ground arith
