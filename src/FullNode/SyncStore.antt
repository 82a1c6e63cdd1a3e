-- ===== src/FullNode/SyncStore.antt =====
-- tad/full_node/sync_store.py: which peers have told of which blocks while the node syncs. The flag
-- of the `asyncio.Event` stands for the event.

pub mod Peers
pub mod Heaviest
use tad_blockchain.Base.{
  ℕ, Bool, true, false, not, Option, none, some, List, [], ◌∷◌, ltb, ◌==◌, if◌then◌else◌,
}
use tad_blockchain.Base.Dict.{Dict, lookup, contains, erase, insert}
use tad_blockchain.Base.Result.{Result, ok, raise, assertion_error, ◌>>=◌, ◌>>◌, assert}
use tad_blockchain.Base.Sets.{Set, member, add, remove}
use tad_blockchain.Types.Bytes.{Bytes32}

-- What a peer has told of its peak.
pub record Peak : Type 0 where
  pub header_hash : Bytes32
  pub height : ℕ
  pub weight : ℕ

pub record SyncStore : Type 0 where
  pub sync_mode : Bool
  pub long_sync : Bool
  pub peak_to_peer : Dict Set
  pub peer_to_peak : Dict Peak
  pub sync_target_header_hash : Option Bytes32
  pub sync_target_height : Option ℕ
  pub peers_changed : Bool
  pub batch_syncing : Set
  pub backtrack_syncing : Dict ℕ

abbrev pub create : SyncStore
create = record {
  sync_mode = false;
  long_sync = false;
  peak_to_peer = [];
  peer_to_peak = [];
  sync_target_header_hash = none;
  sync_target_height = none;
  peers_changed = false;
  batch_syncing = [];
  backtrack_syncing = [];
}

abbrev pub set_peak_target : SyncStore → Bytes32 → ℕ → SyncStore
set_peak_target s peak_hash target_height = record s {
  sync_target_header_hash = some peak_hash;
  sync_target_height = some target_height;
}

abbrev pub set_sync_mode : SyncStore → Bool → SyncStore
set_sync_mode s mode = record s { sync_mode = mode }

abbrev pub set_long_sync : SyncStore → Bool → SyncStore
set_long_sync s mode = record s { long_sync = mode }

abbrev pub seen_header_hash : SyncStore → Bytes32 → Bool
seen_header_hash s header_hash = contains header_hash s.peak_to_peer

-- `header_hash == self.sync_target_header_hash`
abbrev pub is_target : SyncStore → Bytes32 → Bool
is_target s header_hash = elim s.sync_target_header_hash [
  | some target ↦ header_hash == target
  | none ↦ false
]

-- The peers that have told of a block, with one more.
abbrev pub with_peer : Option Set → ℕ → Set
with_peer (some peers) peer_id = add peer_id peers
with_peer none peer_id = peer_id ∷ []

unfoldable pub peer_has_block : SyncStore → Bytes32 → ℕ → ℕ → ℕ → Bool → SyncStore
peer_has_block s header_hash peer_id weight height new_peak =
    let told = with_peer (lookup header_hash s.peak_to_peer) peer_id in
    let peak : Peak = record { header_hash = header_hash; height = height; weight = weight } in
    record s {
      peers_changed = if is_target s header_hash then true else s.peers_changed;
      peak_to_peer = insert header_hash told s.peak_to_peer;
      peer_to_peak = if new_peak then insert peer_id peak s.peer_to_peak else s.peer_to_peak;
    }

-- The inner loop: every peer of one block is added.
abbrev pub add_all : Set → Set → Set
add_all [] node_ids = node_ids
add_all (node_id ∷ peers) node_ids = add_all peers (add node_id node_ids)

-- The outer loop, from the peers that are collected so far.
unfoldable pub collect : Dict Set → List Bytes32 → Set → Set
collect peak_to_peer [] node_ids = node_ids
collect peak_to_peer (header_hash ∷ rest) node_ids =
    collect peak_to_peer rest (elim (lookup header_hash peak_to_peer) [
      | some peers ↦ add_all peers node_ids
      | none ↦ node_ids
    ])

unfoldable pub get_peers_that_have_peak : SyncStore → List Bytes32 → Set
unfolding collect
get_peers_that_have_peak s header_hashes = collect s.peak_to_peer header_hashes []

-- The loop of get_peak_of_each_peer over the entries that are left.
unfoldable pub live_peaks : Dict Set → Dict Peak → Dict Peak
live_peaks peak_to_peer [] = []
live_peaks peak_to_peer (entry ∷ rest) =
    let kept = live_peaks peak_to_peer rest in
    if contains entry.1.header_hash peak_to_peer then entry ∷ kept else kept

unfoldable pub get_peak_of_each_peer : SyncStore → Dict Peak
unfolding live_peaks
get_peak_of_each_peer s = live_peaks s.peak_to_peer s.peer_to_peak

-- `heaviest_peak_hash is None or weight > heaviest_peak_weight`; the three variables of the heaviest
-- peak are set together.
abbrev pub is_heavier : ℕ → Option Peak → Bool
is_heavier weight none = true
is_heavier weight (some heaviest_peak) = ltb heaviest_peak.weight weight

-- The loop of get_heaviest_peak.
unfoldable pub heaviest_of : Dict Set → Dict Peak → Option Peak → Option Peak
heaviest_of peak_to_peer [] heaviest_peak = heaviest_peak
heaviest_of peak_to_peer (entry ∷ rest) heaviest_peak = heaviest_of peak_to_peer rest (
    if not (contains entry.1.header_hash peak_to_peer)
    then heaviest_peak
    else if is_heavier entry.1.weight heaviest_peak
    then some entry.1
    else heaviest_peak)

unfoldable pub get_heaviest_peak : SyncStore → Result (Option Peak)
unfolding heaviest_of
get_heaviest_peak s = elim s.peer_to_peak [
  | [] ↦ ok none
  | _ ∷ _ ↦ elim (heaviest_of s.peak_to_peer s.peer_to_peak none) [
    | none ↦ raise assertion_error
    | some heaviest_peak ↦ ok (some heaviest_peak)
  ]
]

unfoldable pub clear_sync_info : SyncStore → SyncStore
clear_sync_info s = record s { peak_to_peer = [] }

-- The loop of peer_disconnected over the entries that are left.
unfoldable pub forget_peer : ℕ → Dict Set → Result (Dict Set)
forget_peer node_id [] = ok []
forget_peer node_id (entry ∷ rest) = do
  let peers = if member node_id entry.1 then remove node_id entry.1 else entry.1
  assert (not (member node_id peers))
  rest' ← forget_peer node_id rest
  ok ((entry.0, peers) ∷ rest')

unfoldable pub peer_disconnected : SyncStore → ℕ → Result SyncStore
unfolding forget_peer
peer_disconnected s node_id = do
  peak_to_peer' ← forget_peer node_id s.peak_to_peer
  ok (record s {
    peer_to_peak = erase node_id s.peer_to_peak;
    peak_to_peer = peak_to_peer';
    peers_changed = true;
  })
