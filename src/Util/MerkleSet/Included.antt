-- ===== src/Util/MerkleSet/Included.antt =====
-- is_included and is_included_already_hashed on the nodes of a trie.
use native.Mathlib.Nat.{div-eq_of_lt}
use tad_blockchain.Base.{
  ℕ, zero, suc, ◌+◌, ◌*◌, ◌/◌, ◌%◌, ◌^◌, ◌≤◌, ◌<◌, ◌≡◌, refl, sym, ◌∙◌, arith, Bool, true, false,
  not, ◌==◌, List, Bool-cases, or_false, inl, inr,
}
use tad_blockchain.Base.Result.{Result, ok, Returns, Returns-ok}
use tad_blockchain.Types.Bytes.{Bytes, Bytes32}
use tad_blockchain.Util.MerkleSet.{MerkleSet, is_included_already_hashed}
use tad_blockchain.Util.MerkleSet.Nodes.{
  Node, empty_node, terminal_node, middle_node, truncated_node, is_empty, is_included,
  other_included,
}
use tad_blockchain.Util.MerkleSet.Trie.{
  size, member, IsTrie, next_prefix, get_bit_lem, member-prefix, is_double_lem,
}

empty-size : (node : Node) → not (is_empty node) ≡ false → size node ≡ 0
empty-size empty_node e = refl
empty-size (terminal_node h) e = absurd cc
empty-size (middle_node l r h) e = absurd cc
empty-size (truncated_node h) e = refl

module _ (sha256 : Bytes → Bytes32) where
  -- A hash whose prefix is not that of the trie is not in it.
  not_member :
      (rest prefix : ℕ) (node : Node) (x : Bytes32)
      → IsTrie sha256 rest prefix node
      → (x / 2 ^ rest ≡ prefix → ⊥)
      → member x node ≡ false
  not_member rest prefix node x trie other = elim (Bool-cases (member x node)) [
    | inl here ↦ absurd (other (member-prefix sha256 rest prefix node x trie here))
    | inr out ↦ out
  ]

  other_included-Returns :
      (rest prefix : ℕ) (node : Node) (collapse : Bool) (included : Result (List Bytes))
      → IsTrie sha256 rest prefix node
      → Returns included (λ _. Unit)
      → (collapse ≡ false → 2 ≤ size node)
      → Returns (other_included node collapse included) (λ _. Unit)
  unfolding other_included
  other_included-Returns rest prefix empty_node collapse included trie done big = tt
  other_included-Returns rest prefix (terminal_node h) collapse included trie done big = tt
  other_included-Returns rest prefix (truncated_node h) collapse included trie done big = tt
  other_included-Returns rest prefix (middle_node l r h) true included trie done big = tt
  other_included-Returns rest prefix (middle_node l r h) false included trie done big =
      rw (is_double_lem sha256 rest prefix (middle_node l r h) trie (big refl), Returns)
        (elim (Bool-cases (size l + size r == 2)) [ inl two ↦ rw two done | inr more ↦ rw more tt ])

  is_included-Answers :
      (rest prefix : ℕ) (node : Node) (x : Bytes32) (depth : ℕ)
      → IsTrie sha256 rest prefix node
      → depth + rest ≡ 256
      → Returns (is_included node x depth) (λ r. x / 2 ^ rest ≡ prefix → r.0 ≡ member x node)
  unfolding is_included
  is_included-Answers rest prefix empty_node x depth trie total = λ _. refl
  is_included-Answers rest prefix (terminal_node h) x depth trie total = λ _. refl
  is_included-Answers rest prefix (truncated_node h) x depth trie total = absurd trie
  is_included-Answers zero prefix (middle_node l r h) x depth trie total = absurd trie
  is_included-Answers (suc rest) prefix (middle_node l r h) x depth (left, right, two, made) total =
      let ((in_l, proof_l), found_l, right_l) =
        Returns-ok (is_included l x (depth + 1)) _
          (is_included-Answers rest (2 * prefix) l x (depth + 1) left (omega arith)) in
      let ((in_r, proof_r), found_r, right_r) =
        Returns-ok (is_included r x (depth + 1)) _
          (is_included-Answers rest (2 * prefix + 1) r x (depth + 1) right (omega arith)) in
      let (rest_r, other_r, _) = Returns-ok (other_included r (not (is_empty l)) (ok proof_r)) _ (
        other_included-Returns rest (2 * prefix + 1) r (not (is_empty l)) (ok proof_r) right tt
          (λ e. omega (arith, two, empty-size l e))) in
      let (rest_l, other_l, _) = Returns-ok (other_included l (not (is_empty r)) (ok proof_l)) _ (
        other_included-Returns rest (2 * prefix) l (not (is_empty r)) (ok proof_l) left tt
          (λ e. omega (arith, two, empty-size r e))) in
      elim (Bool-cases (x / 2 ^ rest % 2 == 0)) [
        | inl low ↦
            rw (get_bit_lem x rest depth total, low, found_l, found_r, other_r, Returns)
              (λ e.
                let bit : x / 2 ^ rest % 2 ≡ 0 = ground arith in
                let at : x / 2 ^ rest ≡ 2 * prefix = omega (arith, next_prefix x rest, bit, e) in
                let out : member x r ≡ false =
                  not_member rest (2 * prefix + 1) r x right (λ f. absurd (omega arith)) in
                right_l at ∙ sym (rw out (or_false (member x l))))
        | inr high ↦
            rw (get_bit_lem x rest depth total, high, found_l, found_r, other_l, Returns)
              (λ e.
                let bit : x / 2 ^ rest % 2 ≡ 1 = ground arith in
                let at : x / 2 ^ rest ≡ 2 * prefix + 1 =
                  omega (arith, next_prefix x rest, bit, e) in
                let out : member x l ≡ false =
                  not_member rest (2 * prefix) l x left (λ f. absurd (omega arith)) in
                rw out (right_r at))
      ]

  -- On the nodes of a trie the look-up of a hash never raises, also where a whole branch goes into
  -- the proof, and the answer is whether the hash is in the set.
  pub is_included_already_hashed-member :
      (s : MerkleSet) (x : Bytes32)
      → IsTrie sha256 256 0 s.root
      → x < 2 ^ 256
      → Returns (is_included_already_hashed s x) (λ r. r.0 ≡ member x s.root)
  unfolding is_included_already_hashed
  is_included_already_hashed-member s x trie fits =
      let ((answer, proof), found, right) =
        Returns-ok (is_included s.root x 0) _ (is_included-Answers 256 0 s.root x 0 trie refl) in
      rw (found, Returns) (right (div-eq_of_lt fits))
