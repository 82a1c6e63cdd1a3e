-- ===== src/Types/Block.antt =====
-- The parts of a block that its body consists of: tad/types/blockchain_format/foliage.py and
-- tad/types/full_block.py.
use tad_blockchain.Base.{ℕ, Bool, Option, List}
use tad_blockchain.Types.BlockRecord.{Coin}
use tad_blockchain.Types.Bytes.{Bytes, Bytes32}

pub record TransactionsInfo : Type 0 where
  pub generator_root : Bytes32
  pub generator_refs_root : Bytes32
  pub aggregated_signature : Bytes
  pub fees : ℕ
  pub cost : ℕ
  pub reward_claims_incorporated : List Coin

pub record FoliageTransactionBlock : Type 0 where
  pub prev_transaction_block_hash : Bytes32
  pub timestamp : ℕ
  pub filter_hash : Bytes32
  pub additions_root : Bytes32
  pub removals_root : Bytes32
  pub transactions_info_hash : Bytes32

-- A full block, or an unfinished one, whose height is then of no account.
pub record FullBlock : Type 0 where
  pub is_full : Bool
  pub height : ℕ
  pub prev_header_hash : Bytes32
  pub foliage_transaction_block_hash : Option Bytes32
  pub foliage_transaction_block : Option FoliageTransactionBlock
  pub transactions_info : Option TransactionsInfo
  pub transactions_generator : Option Bytes
  pub transactions_generator_ref_list : List ℕ
