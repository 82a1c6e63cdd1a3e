-- ===== src/Consensus/Chain.antt =====
-- What the consensus code asks of the store of blocks (`BlockchainInterface` in
-- tad/consensus/blockchain_interface.py), and the laws that a store of linked blocks obeys.
pub mod Ancestry
use tad_blockchain.Base.{ℕ, ◌+◌, ◌<◌, ◌≡◌, Bool, Option}
use tad_blockchain.Base.Result.{Result, ok, Returns}
use tad_blockchain.Types.BlockRecord.{BlockRecord}
use tad_blockchain.Types.Bytes.{Bytes32}

pub record BlockchainInterface : Type 0 where
  pub contains_block : Bytes32 → Bool
  pub block_record : Bytes32 → Result BlockRecord
  pub contains_height : ℕ → Bool
  pub height_to_hash : ℕ → Option Bytes32
  pub height_to_block_record : ℕ → Result BlockRecord

module _ (blocks : BlockchainInterface) where
  open blocks use {block_record}

  -- The store gives the block back under its own header hash.
  abbrev pub IsStored : BlockRecord → Type 0
  IsStored b = block_record b.header_hash ≡ ok b

  -- Blocks are filed under their header hashes, and the parent of every block above height 0 is
  -- there, one height below.
  pub record IsChain : Type 0 where
    pub named : (h : Bytes32) (b : BlockRecord) → block_record h ≡ ok b → b.header_hash ≡ h
    pub linked :
        (b : BlockRecord)
        → IsStored b
        → 0 < b.height
        → Returns (block_record b.prev_hash) (λ p. p.height + 1 ≡ b.height)

  -- `Extends b a`: following the parents from b leads to a, perhaps in no step.
  pub data Extends : BlockRecord → BlockRecord → Type 0 where
    self : {b : BlockRecord} → Extends b b
    back :
        {b p a : BlockRecord}
        → 0 < b.height
        → block_record b.prev_hash ≡ ok p
        → Extends p a
        → Extends b a
