-- ===== src/Util/MerkleSet/Nodes.antt =====
-- The nodes of tad/util/merkle_set.py. Where a method of the source returns
-- the node itself, which its caller tells by identity, the result here is none.
use tad_blockchain.Base.{
  ℕ, zero, suc, ◌+◌, ◌-◌, ◌/◌, ◌%◌, ◌^◌, Bool, true, false, not, ◌&&◌, ◌||◌, Option, none, some,
  List, [], ◌∷◌, ◌++◌, ltb, leb, ◌==◌, if◌then◌else◌,
}
use tad_blockchain.Base.Result.{
  Result, ok, raise, set_error, index_error, out_of_fuel, ◌>>=◌, ◌>>◌, raise_if, assert,
}
use tad_blockchain.Types.Bytes.{Bytes, Bytes32, to_bytes}

-- EMPTY, TERMINAL, MIDDLE and TRUNCATED.
abbrev pub empty_tag : ℕ
empty_tag = 0

abbrev pub terminal_tag : ℕ
terminal_tag = 1

abbrev pub middle_tag : ℕ
middle_tag = 2

abbrev pub truncated_tag : ℕ
truncated_tag = 3

-- A middle node has its two children and its hash.
pub data Node : Type 0 where
  empty_node : Node
  terminal_node : Bytes32 → Node
  middle_node : Node → Node → Bytes32 → Node
  truncated_node : Bytes32 → Node

-- The field `hash`.
abbrev pub hash : Node → Bytes32
hash empty_node = 0
hash (terminal_node h) = h
hash (middle_node l r h) = h
hash (truncated_node h) = h

-- The tag byte and the hash after it.
abbrev pub get_hash : Node → ℕ × Bytes32
get_hash empty_node = (empty_tag, 0)
get_hash (terminal_node h) = (terminal_tag, h)
get_hash (middle_node l r h) = (middle_tag, h)
get_hash (truncated_node h) = (middle_tag, h)

abbrev pub is_empty : Node → Bool
is_empty empty_node = true
is_empty (terminal_node h) = false
is_empty (middle_node l r h) = false
is_empty (truncated_node h) = false

abbrev pub is_terminal : Node → Bool
is_terminal empty_node = false
is_terminal (terminal_node h) = true
is_terminal (middle_node l r h) = false
is_terminal (truncated_node h) = false

unfoldable pub is_double : Node → Result Bool
is_double empty_node = raise set_error
is_double (terminal_node h) = raise set_error
is_double (middle_node l r h) =
    let left_double = is_double l in
    let right_double = is_double r in
    if is_empty l
    then right_double
    else if is_empty r
    then left_double
    else ok (is_terminal l && is_terminal r)
is_double (truncated_node h) = ok false

-- `mybytes[pos // 8]` is out of range from bit 256 on.
unfoldable pub get_bit : Bytes32 → ℕ → Result ℕ
get_bit mybytes pos = if ltb pos 256 then ok (mybytes / 2 ^ (255 - pos) % 2) else raise index_error

-- `sha256` takes a byte string to its hash; an object that has hashed a first part and is updated
-- by a second one gives the hash of both in a row.
module _ (sha256 : Bytes → Bytes32) where
  abbrev zeros : ℕ → Bytes
  zeros zero = []
  zeros (suc n) = 0 ∷ zeros n

  -- The two tags with 30 zero bytes before them are what is hashed beforehand.
  unfoldable pub hashdown : ℕ × Bytes32 → ℕ × Bytes32 → Bytes32
  hashdown first second =
      sha256 (zeros 30 ++ (first.0 ∷ second.0 ∷ []) ++ to_bytes 32 first.1 ++ to_bytes 32 second.1)

  unfoldable pub compress_root : ℕ × Bytes32 → Result Bytes32
  compress_root tagged =
      if tagged.0 == middle_tag
      then ok tagged.1
      else if tagged.0 == empty_tag
      then (assert (tagged.1 == 0) >> ok 0)
      else ok (sha256 (tagged.0 ∷ to_bytes 32 tagged.1))

  -- `MiddleNode([l, r])`
  unfoldable pub new_middle : Node → Node → Result Node
  unfolding hashdown is_double
  new_middle l r = do
    left_out ← if is_empty l then is_double r else ok false
    if left_out then ok (middle_node l r (hash r)) else do
      right_out ← if is_empty r then is_double l else ok false
      if right_out then ok (middle_node l r (hash l)) else do
        raise_if (is_empty l && (is_empty r || is_terminal r)) set_error
        raise_if (is_empty r && is_terminal l) set_error
        raise_if (is_terminal l && is_terminal r && leb (hash r) (hash l)) set_error
        ok (middle_node l r (hashdown (get_hash l) (get_hash r)))

  -- `_make_middle` on two terminal nodes; the depth grows to 256 at most, where get_bit raises.
  unfoldable pub make_middle : ℕ → Bytes32 → Bytes32 → ℕ → Result Node
  unfolding get_bit new_middle
  make_middle zero first second depth = raise out_of_fuel
  make_middle (suc fuel) first second depth = do
    let nested = make_middle fuel first second (depth + 1)
    bit_0 ← get_bit first depth
    bit_1 ← get_bit second depth
    elim (bit_0 == bit_1) [
      | false ↦ new_middle (terminal_node first) (terminal_node second)
      | true ↦ do
        next ← nested
        if bit_0 == 0 then new_middle next empty_node else new_middle empty_node next
    ]

  abbrev pub some_of : Result Node → Result (Option Node)
  some_of node = node >>= λ n. ok (some n)

  unfoldable pub add : Node → Bytes32 → ℕ → Result (Option Node)
  unfolding make_middle get_bit new_middle
  add empty_node toadd depth = ok (some (terminal_node toadd))
  add (terminal_node h) toadd depth =
      if toadd == h
      then ok none
      else if ltb h toadd
      then some_of (make_middle (257 - depth) h toadd depth)
      else some_of (make_middle (257 - depth) toadd h depth)
  add (middle_node l r h) toadd depth = do
    let left = add l toadd (depth + 1)
    let right = add r toadd (depth + 1)
    bit ← get_bit toadd depth
    newchild ← if bit == 0 then left else right
    elim newchild [
      | none ↦ ok none
      | some new ↦ some_of (if bit == 0 then new_middle new r else new_middle l new)
    ]
  add (truncated_node h) toadd depth = ok none

  -- The two shortcuts of a removal, and `MiddleNode(newvals)`.
  abbrev pub shrink : Node → Node → Result Node → Result Node
  shrink newchild otherchild rebuilt =
      if is_empty newchild && is_terminal otherchild
      then ok otherchild
      else if is_terminal newchild && is_empty otherchild
      then ok newchild
      else rebuilt

  unfoldable pub remove : Node → Bytes32 → ℕ → Result (Option Node)
  unfolding get_bit new_middle
  remove empty_node toremove depth = ok none
  remove (terminal_node h) toremove depth = if toremove == h then ok (some empty_node) else ok none
  remove (middle_node l r h) toremove depth = do
    let left = remove l toremove (depth + 1)
    let right = remove r toremove (depth + 1)
    bit ← get_bit toremove depth
    newchild ← if bit == 0 then left else right
    elim newchild [
      | none ↦ ok none
      | some new ↦
          some_of
            (if bit == 0 then shrink new r (new_middle new r) else shrink new l (new_middle l new))
    ]
  remove (truncated_node h) toremove depth = ok none

-- What other_included appends, where `included` is what is_included appends on the same node.
unfoldable pub other_included : Node → Bool → Result (List Bytes) → Result (List Bytes)
unfolding is_double
other_included empty_node collapse included = ok ((empty_tag ∷ []) ∷ [])
other_included (terminal_node h) collapse included = ok ((terminal_tag ∷ to_bytes 32 h) ∷ [])
other_included (middle_node l r h) collapse included =
    if collapse then ok ((truncated_tag ∷ to_bytes 32 h) ∷ []) else do
      double ← is_double (middle_node l r h)
      if double then included else ok ((truncated_tag ∷ to_bytes 32 h) ∷ [])
other_included (truncated_node h) collapse included = ok ((truncated_tag ∷ to_bytes 32 h) ∷ [])

-- The answer, and what is appended to the proof.
unfoldable pub is_included : Node → Bytes32 → ℕ → Result (Bool × List Bytes)
unfolding get_bit other_included
is_included empty_node tocheck depth = ok (false, (empty_tag ∷ []) ∷ [])
is_included (terminal_node h) tocheck depth = ok (tocheck == h, (terminal_tag ∷ to_bytes 32 h) ∷ [])
is_included (middle_node l r h) tocheck depth = do
  let left = is_included l tocheck (depth + 1)
  let right = is_included r tocheck (depth + 1)
  bit ← get_bit tocheck depth
  if bit == 0
      then (do
        (answer, proof) ← left
        rest ← other_included r (not (is_empty l)) (right >>= λ included. ok included.1)
        ok (answer, (middle_tag ∷ []) ∷ proof ++ rest))
      else do
        rest ← other_included l (not (is_empty r)) (left >>= λ included. ok included.1)
        (answer, proof) ← right
        ok (answer, (middle_tag ∷ []) ∷ rest ++ proof)
is_included (truncated_node h) tocheck depth = raise set_error
