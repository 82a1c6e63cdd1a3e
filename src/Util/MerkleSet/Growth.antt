-- ===== src/Util/MerkleSet/Growth.antt =====
-- add and add_already_hashed on the nodes of a trie.
use native.Mathlib.Nat.{div-eq_of_lt}
use tad_blockchain.Base.{
  ℕ, zero, suc, ◌+◌, ◌-◌, ◌*◌, ◌/◌, ◌%◌, ◌^◌, ◌≤◌, ◌<◌, ◌≡◌, refl, sym, ◌∙◌, ap, arith, true, false,
  ◌||◌, ◌==◌, ltb, Option, none, some, Bool-cases, or_false, or_comm, or_assoc, or_swap, inl, inr,
  if◌then◌else◌,
}
use tad_blockchain.Base.Result.{ok, ◌>>=◌, Returns, Returns-ok}
use tad_blockchain.Types.Bytes.{Bytes, Bytes32}
use tad_blockchain.Util.MerkleSet.{MerkleSet, or_self, add_already_hashed}
use tad_blockchain.Util.MerkleSet.Pair.{new_middle-IsTrie, make_middle-IsPair}
use tad_blockchain.Util.MerkleSet.Nodes.{
  Node, empty_node, terminal_node, middle_node, truncated_node, new_middle, make_middle, add,
}
use tad_blockchain.Util.MerkleSet.Trie.{size, member, IsTrie, next_prefix, get_bit_lem}

module _ (sha256 : Bytes → Bytes32) where
  -- What add returns: none only where the hash is there, and else the trie with the hash.
  Added : ℕ → ℕ → Node → Bytes32 → Option Node → Type 0
  Added rest prefix node toadd none = member toadd node ≡ true
  Added rest prefix node toadd (some n) =
      IsTrie sha256 rest prefix n
      × (size node ≤ size n)
      × (1 ≤ size n)
      × ((x : Bytes32) → member x n ≡ (x == toadd || member x node))

  add_low :
      (rest prefix bit : ℕ) (l r : Node) (h toadd : Bytes32) (new : Option Node)
      → (bit == 0) ≡ true
      → IsTrie sha256 (suc rest) prefix (middle_node l r h)
      → Added rest (2 * prefix) l toadd new
      → Returns
          (elim new [
            | none ↦ ok none
            | some n ↦ (if bit == 0 then new_middle sha256 n r else new_middle sha256 l n) >>= λ m.
                ok (some m)
          ])
          (Added (suc rest) prefix (middle_node l r h) toadd)
  unfolding Added
  add_low rest prefix bit l r h toadd none which trie here = rw here refl
  add_low rest prefix bit l r h toadd (some n) which (left, right, two, made)
        (trie, more, one, has) =
      let (g, made', whole) =
        new_middle-IsTrie sha256 rest prefix n r trie right (omega (arith, two, more)) in
      rw (which, made', Returns)
        (
          whole,
          omega (arith, more),
          omega (arith, one),
          λ x. ap (λ b. b || member x r) (has x) ∙ or_assoc (x == toadd) (member x l) (member x r),
        )

  add_high :
      (rest prefix bit : ℕ) (l r : Node) (h toadd : Bytes32) (new : Option Node)
      → (bit == 0) ≡ false
      → IsTrie sha256 (suc rest) prefix (middle_node l r h)
      → Added rest (2 * prefix + 1) r toadd new
      → Returns
          (elim new [
            | none ↦ ok none
            | some n ↦ (if bit == 0 then new_middle sha256 n r else new_middle sha256 l n) >>= λ m.
                ok (some m)
          ])
          (Added (suc rest) prefix (middle_node l r h) toadd)
  unfolding Added
  add_high rest prefix bit l r h toadd none which trie here =
      or_comm (member toadd l) (member toadd r) ∙ (rw here refl)
  add_high rest prefix bit l r h toadd (some n) which (left, right, two, made)
        (trie, more, one, has) =
      let (g, made', whole) =
        new_middle-IsTrie sha256 rest prefix l n left trie (omega (arith, two, more)) in
      rw (which, made', Returns)
        (
          whole,
          omega (arith, more),
          omega (arith, one),
          λ x. ap (λ b. member x l || b) (has x) ∙ or_swap (member x l) (x == toadd) (member x r),
        )

  add-Added :
      (rest prefix : ℕ) (node : Node) (toadd : Bytes32) (depth : ℕ)
      → IsTrie sha256 rest prefix node
      → toadd / 2 ^ rest ≡ prefix
      → depth + rest ≡ 256
      → Returns (add sha256 node toadd depth) (Added rest prefix node toadd)
  unfolding add Added
  add-Added rest prefix empty_node toadd depth trie at total =
      (at, omega arith, omega arith, λ x. sym (or_false (x == toadd)))
  add-Added rest prefix (truncated_node h) toadd depth trie at total = absurd trie
  add-Added zero prefix (middle_node l r h) toadd depth trie at total = absurd trie
  add-Added rest prefix (terminal_node h) toadd depth trie at total =
      elim (Bool-cases (toadd == h)) [
        | inl same ↦ rw (same, Returns) same
        | inr differ ↦ elim (Bool-cases (ltb h toadd)) [
          | inl above ↦
              let (n, made, (pair, two, has)) =
                Returns-ok (make_middle sha256 (257 - depth) h toadd depth) _ (
                  make_middle-IsPair sha256 (257 - depth) rest depth prefix h toadd trie at
                    (ground arith) total (omega arith)) in
              rw (differ, above, made, Returns)
                (
                  pair,
                  omega (arith, two),
                  omega (arith, two),
                  λ x. has x ∙ or_comm (x == h) (x == toadd),
                )
          | inr below ↦
              let (n, made, (pair, two, has)) =
                Returns-ok (make_middle sha256 (257 - depth) toadd h depth) _ (
                  make_middle-IsPair sha256 (257 - depth) rest depth prefix toadd h at trie
                    (ground arith) total (omega arith)) in
              rw (differ, below, made, Returns) (pair, omega (arith, two), omega (arith, two), has)
        ]
      ]
  add-Added (suc rest) prefix (middle_node l r h) toadd depth trie at total =
      let bit = toadd / 2 ^ rest % 2 in
      elim (Bool-cases (bit == 0)) [
        | inl low ↦
            let here : toadd / 2 ^ rest ≡ 2 * prefix =
              omega (arith, next_prefix toadd rest, at, (let z : bit ≡ 0 = ground arith in z)) in
            let (new, done, added) =
              Returns-ok (add sha256 l toadd (depth + 1)) _
                (add-Added rest (2 * prefix) l toadd (depth + 1) trie.0 here (omega arith)) in
            rw (get_bit_lem toadd rest depth total, low, done, Returns)
              (add_low rest prefix bit l r h toadd new low trie added)
        | inr high ↦
            let here : toadd / 2 ^ rest ≡ 2 * prefix + 1 =
              omega (arith, next_prefix toadd rest, at, (let z : bit ≡ 1 = ground arith in z)) in
            let (new, done, added) =
              Returns-ok (add sha256 r toadd (depth + 1)) _
                (add-Added rest (2 * prefix + 1) r toadd (depth + 1) trie.1 here (omega arith)) in
            rw (get_bit_lem toadd rest depth total, high, done, Returns)
              (add_high rest prefix bit l r h toadd new high trie added)
      ]

  member_already :
      (node : Node) (toadd x : Bytes32)
      → member toadd node ≡ true
      → member x node ≡ (x == toadd || member x node)
  member_already node toadd x here = elim (Bool-cases (x == toadd)) [
    | inl same ↦ let e : x ≡ toadd = ground arith in rw (same, e) here
    | inr differ ↦ rw differ refl
  ]

  settled :
      (s : MerkleSet) (new : Option Node) (toadd : Bytes32)
      → IsTrie sha256 256 0 s.root
      → Added 256 0 s.root toadd new
      → IsTrie sha256 256 0 (or_self s.root new)
        × ((x : Bytes32) → member x (or_self s.root new) ≡ (x == toadd || member x s.root))
  unfolding Added
  settled s none toadd trie here = (trie, λ x. member_already s.root toadd x here)
  settled s (some n) toadd trie (trie', more, one, has) = (trie', has)

  -- Adding a hash of 32 bytes to a set whose nodes are the trie of its hashes never raises and gives
  -- such a set again, which has the hashes of before and the new one, and no other.
  pub add_already_hashed-IsTrie :
      (s : MerkleSet) (toadd : Bytes32)
      → IsTrie sha256 256 0 s.root
      → toadd < 2 ^ 256
      → Returns (add_already_hashed sha256 s toadd) (λ s'.
        IsTrie sha256 256 0 s'.root
        × ((x : Bytes32) → member x s'.root ≡ (x == toadd || member x s.root)))
  unfolding add_already_hashed
  add_already_hashed-IsTrie s toadd trie fits =
      let (new, done, added) =
        Returns-ok (add sha256 s.root toadd 0) (Added 256 0 s.root toadd)
          (add-Added 256 0 s.root toadd 0 trie (div-eq_of_lt fits) refl) in
      rw (done, Returns) (settled s new toadd trie added)
