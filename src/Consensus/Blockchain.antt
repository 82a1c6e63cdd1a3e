-- ===== src/Consensus/Blockchain.antt =====
-- tad/consensus/blockchain.py: the state of the blockchain, its cache of block records with the index
-- by height, and what it keeps in the stores of blocks (tad/full_node/block_store.py), coins and hints
-- (tad/full_node/hint_store.py). The store of blocks is its tables, by header hash; its cache of full
-- blocks before them is not modelled.
pub mod Changes
pub mod Branch
pub mod Peak
pub mod Path
pub mod Follow
pub mod Coins
pub mod Ledger
pub mod Stored
pub mod Accept
pub mod Genesis
pub mod Collect
use tad_blockchain.Base.{ℕ, Bool, Option, none, some, List, [], ◌∷◌, ◌++◌, ◌==◌, if◌then◌else◌}
use tad_blockchain.Base.Dict.{Dict, contains, erase, insert, lookup}
use tad_blockchain.Base.Result.{Result, ok, key_error, ◌>>=◌, or_raise}
use tad_blockchain.Base.Sets.{Set, add, remove}
use tad_blockchain.Consensus.Chain.{BlockchainInterface}
use tad_blockchain.FullNode.CoinStore.{CoinStore}
use tad_blockchain.Types.Block.{FullBlock}
use tad_blockchain.Types.BlockRecord.{BlockRecord, SubEpochSummary}
use tad_blockchain.Types.Bytes.{Bytes, Bytes32}

-- The rows of both tables, and the one that is marked as the peak.
pub record BlockStore : Type 0 where
  pub full_blocks : Dict FullBlock
  pub block_rows : Dict BlockRecord
  pub peak_hash : Option Bytes32

-- The hints are pairs of a coin's name and the hint, in the order of insertion.
pub record Blockchain : Type 0 where
  pub block_records : Dict BlockRecord
  pub heights_in_cache : Dict Set
  pub heights_to_hashes : Dict Bytes32
  pub sub_epoch_summaries : Dict SubEpochSummary
  pub peak_height : Option ℕ
  pub coin_store : CoinStore
  pub block_store : BlockStore
  pub hints : List (Bytes32 × Bytes)

-- `INSERT OR REPLACE` into both tables; the new row is not marked.
abbrev pub add_full_block : Bytes32 → FullBlock → BlockRecord → BlockStore → BlockStore
add_full_block header_hash block block_record self = record {
  full_blocks = insert header_hash block self.full_blocks;
  block_rows = insert header_hash block_record self.block_rows;
  peak_hash = elim self.peak_hash [
    | none ↦ none
    | some peak ↦ if peak == header_hash then none else some peak
  ];
}

-- Both statements of `set_peak`: no row is marked, and then the row of the hash.
abbrev pub set_peak : Bytes32 → BlockStore → BlockStore
set_peak header_hash self = record self {
  peak_hash = if contains header_hash self.block_rows then some header_hash else none;
}

abbrev pub add_hints : List (Bytes32 × Bytes) → Blockchain → Blockchain
add_hints coin_hint_list self = record self { hints = self.hints ++ coin_hint_list }

abbrev pub block_record : Blockchain → Bytes32 → Result BlockRecord
block_record self header_hash = or_raise (lookup header_hash self.block_records) key_error

abbrev pub height_to_hash : Blockchain → ℕ → Result Bytes32
height_to_hash self height = or_raise (lookup height self.heights_to_hashes) key_error

abbrev pub height_to_block_record : Blockchain → ℕ → Result BlockRecord
height_to_block_record self height = do
  header_hash ← height_to_hash self height
  block_record self header_hash

abbrev pub get_peak : Blockchain → Result (Option BlockRecord)
get_peak self = elim self.peak_height [
  | none ↦ ok none
  | some height ↦ do peak ← height_to_block_record self height; ok (some peak)
]

-- The blockchain as the rules of the consensus see it.
abbrev pub interface : Blockchain → BlockchainInterface
interface self = record {
  contains_block = λ header_hash. contains header_hash self.block_records;
  block_record = block_record self;
  contains_height = λ height. contains height self.heights_to_hashes;
  height_to_hash = λ height. lookup height self.heights_to_hashes;
  height_to_block_record = height_to_block_record self;
}

abbrev pub hashes_at : ℕ → Blockchain → Set
hashes_at height self = elim (lookup height self.heights_in_cache) [
  | none ↦ []
  | some hashes ↦ hashes
]

unfoldable pub add_block_record : BlockRecord → Blockchain → Blockchain
add_block_record b self = record self {
  block_records = insert b.header_hash b self.block_records;
  heights_in_cache =
      insert b.height (add b.header_hash (hashes_at b.height self)) self.heights_in_cache;
}
