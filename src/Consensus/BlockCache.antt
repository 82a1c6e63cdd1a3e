-- ===== src/Consensus/BlockCache.antt =====
-- `BlockCache` (tad/util/block_cache.py): the blockchain interface over dicts in memory.
pub mod Linked
use tad_blockchain.Base.{ℕ, Bool, Option, none, some, ◌≡◌, ◌+◌, ◌<◌}
use tad_blockchain.Base.Dict.{Dict, lookup, contains, insert, erase}
use tad_blockchain.Base.Result.{Result, ok, raise, key_error, or_raise}
use tad_blockchain.Consensus.Chain.{BlockchainInterface}
use tad_blockchain.Types.BlockRecord.{BlockRecord, SubEpochSummary}
use tad_blockchain.Types.Bytes.{Bytes32}

-- (The header blocks and the sub-epoch segments are handed through and never read.)
pub record BlockCache : Type 0 where
  pub block_records : Dict BlockRecord
  pub height_to_hash_map : Dict Bytes32
  pub sub_epoch_summaries : Dict SubEpochSummary

abbrev pub block_record : BlockCache → Bytes32 → Result BlockRecord
block_record cache header_hash = or_raise (lookup header_hash cache.block_records) key_error

abbrev pub height_to_hash : BlockCache → ℕ → Option Bytes32
height_to_hash cache height = lookup height cache.height_to_hash_map

-- A height with no hash is looked up as `None`, which is no key.
abbrev pub height_to_block_record : BlockCache → ℕ → Result BlockRecord
height_to_block_record cache height = elim (height_to_hash cache height) [
  | none ↦ raise key_error
  | some header_hash ↦ block_record cache header_hash
]

abbrev pub contains_block : BlockCache → Bytes32 → Bool
contains_block cache header_hash = contains header_hash cache.block_records

abbrev pub contains_height : BlockCache → ℕ → Bool
contains_height cache height = contains height cache.height_to_hash_map

abbrev pub get_ses : BlockCache → ℕ → Result SubEpochSummary
get_ses cache height = or_raise (lookup height cache.sub_epoch_summaries) key_error

unfoldable pub add_block_record : BlockCache → BlockRecord → BlockCache
add_block_record cache block = record cache {
  block_records = insert block.header_hash block cache.block_records;
}

unfoldable pub remove_block_record : BlockCache → Bytes32 → Result BlockCache
remove_block_record cache header_hash = elim (lookup header_hash cache.block_records) [
  | none ↦ raise key_error
  | some _ ↦ ok (record cache { block_records = erase header_hash cache.block_records })
]

-- The cache as the consensus code sees it.
abbrev pub interface : BlockCache → BlockchainInterface
interface cache = record {
  contains_block = contains_block cache;
  block_record = block_record cache;
  contains_height = contains_height cache;
  height_to_hash = height_to_hash cache;
  height_to_block_record = height_to_block_record cache;
}
