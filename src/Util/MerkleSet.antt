-- ===== src/Util/MerkleSet.antt =====
-- tad/util/merkle_set.py: a set of hashes with a Merkle root, as a tree of nodes. Proofs are made
-- here, and not read.
pub mod Nodes
pub mod Trie
pub mod Included
pub mod Pair
pub mod Growth
use tad_blockchain.Base.{Bool, Option, none, some, List, [], ◌∷◌, ◌++◌}
use tad_blockchain.Base.Result.{Result, ok, ◌>>=◌}
use tad_blockchain.Types.Bytes.{Bytes, Bytes32}
use tad_blockchain.Util.MerkleSet.Nodes.{
  Node, empty_node, get_hash, compress_root, add, remove, is_included,
}

pub record MerkleSet : Type 0 where
  pub root : Node

abbrev pub init : MerkleSet
init = record { root = empty_node }

-- The node that a method returns, which is the node itself for none.
abbrev pub or_self : Node → Option Node → Node
or_self node none = node
or_self node (some new) = new

module _ (sha256 : Bytes → Bytes32) where
  unfoldable pub get_root : MerkleSet → Result Bytes32
  unfolding compress_root
  get_root s = compress_root sha256 (get_hash s.root)

  unfoldable pub add_already_hashed : MerkleSet → Bytes32 → Result MerkleSet
  unfolding add
  add_already_hashed s toadd = do
    new ← add sha256 s.root toadd 0
    ok (record s { root = or_self s.root new })

  unfoldable pub remove_already_hashed : MerkleSet → Bytes32 → Result MerkleSet
  unfolding remove
  remove_already_hashed s toremove = do
    new ← remove sha256 s.root toremove 0
    ok (record s { root = or_self s.root new })

abbrev join : List Bytes → Bytes
join [] = []
join (part ∷ rest) = part ++ join rest

unfoldable pub is_included_already_hashed : MerkleSet → Bytes32 → Result (Bool × Bytes)
unfolding is_included
is_included_already_hashed s tocheck = do
  (answer, proof) ← is_included s.root tocheck 0
  ok (answer, join proof)
