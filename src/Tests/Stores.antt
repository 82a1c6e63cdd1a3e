-- ===== src/Tests/Stores.antt =====
-- The sync store, the cache of pending transactions and the mempool's checks on small data.
use tad_blockchain.Base.{
  ℕ, ◌≡◌, ◌↔◌, refl, true, false, none, some, List, [], ◌∷◌, ◌++◌, arith, ◌==◌, ◌||◌, ◌^◌, length,
}
use tad_blockchain.Base.Int.{pos}
use tad_blockchain.Base.Result.{ok, raise, assertion_error, ◌>>=◌, Returns}
use tad_blockchain.Base.Sets.{member as has_member}
use tad_blockchain.FullNode.MempoolConditions.{mempool_check_conditions_dict}
use tad_blockchain.FullNode.MempoolConditions.Checks.{
  EverySatisfied, mempool_check_conditions_dict-EverySatisfied,
}
use tad_blockchain.FullNode.PendingTxCache.{MempoolItem, PendingTxCache, add}
use tad_blockchain.FullNode.PendingTxCache.Eviction.{IsValid, IsLongestEnd, add-IsLongestEnd}
use tad_blockchain.FullNode.SyncStore.{
  SyncStore, create, get_heaviest_peak, get_peak_of_each_peer, clear_sync_info,
  get_peers_that_have_peak,
}
use tad_blockchain.FullNode.SyncStore.Heaviest.{
  HeaviestOf, get_heaviest_peak-HeaviestOf, get_heaviest_peak-clear_sync_info,
}
use tad_blockchain.FullNode.SyncStore.Peers.{
  Event, has_block, disconnected, run, told, any, get_peers_that_have_peak-told,
}
use tad_blockchain.Types.Bytes.{Bytes, Bytes32, from_bytes, to_bytes}
use tad_blockchain.Types.Conditions.{
  ConditionsDict, CoinRecord, assert_height_absolute, assert_seconds_relative, create_coin,
}
use tad_blockchain.Util.MerkleSet.{MerkleSet, init, add_already_hashed, is_included_already_hashed}
use tad_blockchain.Util.MerkleSet.Growth.{add_already_hashed-IsTrie}
use tad_blockchain.Util.MerkleSet.Included.{is_included_already_hashed-member}
use tad_blockchain.Util.MerkleSet.Nodes.{terminal_node, middle_node, new_middle}
use tad_blockchain.Util.MerkleSet.Trie.{IsTrie, member}

abbrev history : List Event
history =
    disconnected 7
    ∷ has_block 101 8 20 2 true
    ∷ has_block 100 8 10 1 true
    ∷ has_block 100 7 10 1 true
    ∷ []

get_peers_that_have_peak-told_example : Returns (run history) (λ s.
    (hs : List ℕ) (p : ℕ) → has_member p (get_peers_that_have_peak s hs) ≡ any (told history p) hs)
get_peers_that_have_peak-told_example = get_peers_that_have_peak-told history

abbrev two_peaks : SyncStore
two_peaks = record create {
  peak_to_peer = (100, 7 ∷ []) ∷ (101, 8 ∷ []) ∷ [];
  peer_to_peak =
      (7, record { header_hash = 100; height = 1; weight = 10 })
      ∷ (8, record { header_hash = 101; height = 2; weight = 20 })
      ∷ [];
}

heaviest_of_two :
    get_heaviest_peak two_peaks ≡ ok (some (record { header_hash = 101; height = 2; weight = 20 }))
unfolding get_heaviest_peak
heaviest_of_two = refl

get_heaviest_peak-HeaviestOf_example : HeaviestOf two_peaks (get_heaviest_peak two_peaks)
get_heaviest_peak-HeaviestOf_example = get_heaviest_peak-HeaviestOf two_peaks

get_heaviest_peak-clear_sync_info_example :
    (get_heaviest_peak (clear_sync_info two_peaks) ≡ raise assertion_error)
    × (get_peak_of_each_peer (clear_sync_info two_peaks) ≡ [])
get_heaviest_peak-clear_sync_info_example =
    get_heaviest_peak-clear_sync_info two_peaks
      (7, record { header_hash = 100; height = 1; weight = 10 })
      ((8, record { header_hash = 101; height = 2; weight = 20 }) ∷ []) refl

abbrev item : ℕ → ℕ → MempoolItem (Unit {0})
item name cost = record { spend_bundle = tt; fee = 1; cost = cost; spend_bundle_name = name }

abbrev two_items : PendingTxCache (Unit {0})
two_items = record {
  cache_max_total_cost = 10;
  cache_cost = 9;
  txs = (1, item 1 4) ∷ (2, item 2 5) ∷ [];
}

add-IsLongestEnd_example : Returns (add two_items (item 3 4)) (λ cache'.
    IsValid cache'
    × (cache'.cache_max_total_cost ≡ 10)
    × IsLongestEnd 10 (two_items.txs ++ (3, item 3 4) ∷ []) cache'.txs)
add-IsLongestEnd_example =
    add-IsLongestEnd two_items (item 3 4) ((refl, (refl, tt)), refl, omega arith)

abbrev conditions : ConditionsDict
conditions =
    (
      assert_height_absolute,
      (record { opcode = assert_height_absolute; vars = (5 ∷ []) ∷ [] }) ∷ [],
    )
    ∷ (create_coin, (record { opcode = create_coin; vars = [] }) ∷ [])
    ∷ (
      assert_seconds_relative,
      (record { opcode = assert_seconds_relative; vars = (1 ∷ 0 ∷ []) ∷ [] }) ∷ [],
    )
    ∷ []

abbrev coin_record : CoinRecord
coin_record = record {
  coin = record { parent_coin_info = 1; puzzle_hash = 2; amount = 3 };
  confirmed_block_index = 4;
  spent_block_index = 0;
  spent = false;
  coinbase = false;
  timestamp = 1000;
}

mempool_check_conditions_dict-EverySatisfied_example :
    (mempool_check_conditions_dict
        (λ blob. ok (pos (from_bytes blob)))
        0
        coin_record
        5
        (some 1300)
        conditions
      ≡ ok none)
    ↔ EverySatisfied (λ blob. ok (pos (from_bytes blob))) 0 coin_record 5 (some 1300) conditions
mempool_check_conditions_dict-EverySatisfied_example =
    mempool_check_conditions_dict-EverySatisfied (λ blob. ok (pos (from_bytes blob))) 0 coin_record
      5 (some 1300) conditions

-- The hashes 1 and 2^255, which differ in the first bit, and a stand-in for SHA-256.
abbrev count_bytes : Bytes → Bytes32
count_bytes blob = length blob

abbrev two_hashes : MerkleSet
two_hashes = record { root = middle_node (terminal_node 1) (terminal_node (2 ^ 255)) 96 }

two_hashes_added :
    (add_already_hashed count_bytes init (2 ^ 255) >>= λ s. add_already_hashed count_bytes s 1)
    ≡ ok two_hashes
unfolding add_already_hashed to_bytes
two_hashes_added = refl

two_hashes-IsTrie : IsTrie count_bytes 256 0 two_hashes.root
unfolding new_middle to_bytes
two_hashes-IsTrie = (refl, refl, omega arith, refl)

is_included_already_hashed-member_example :
    Returns (is_included_already_hashed two_hashes 1) (λ r. r.0 ≡ member 1 two_hashes.root)
is_included_already_hashed-member_example =
    is_included_already_hashed-member count_bytes two_hashes 1 two_hashes-IsTrie (omega arith)

add_already_hashed-IsTrie_example : Returns (add_already_hashed count_bytes two_hashes 3) (λ s'.
    IsTrie count_bytes 256 0 s'.root
    × ((x : Bytes32) → member x s'.root ≡ (x == 3 || member x two_hashes.root)))
add_already_hashed-IsTrie_example =
    add_already_hashed-IsTrie count_bytes two_hashes 3 two_hashes-IsTrie (omega arith)
