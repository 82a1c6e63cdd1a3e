-- ===== src/Types/Primitives.antt =====
-- What the checks of a block take from third-party packages, and the name of a coin.
use tad_blockchain.Base.{ℕ, Bool, List, ◌++◌}
use tad_blockchain.Base.Int.{ℤ}
use tad_blockchain.Base.Result.{Result}
use tad_blockchain.Types.BlockRecord.{Coin}
use tad_blockchain.Types.Bytes.{Bytes, Bytes32, to_bytes}

-- SHA-256; the CLVM encoding of integers, both ways; the compact filter of BIP 158; reading a public
-- key and the check of an aggregated signature, from blspy; and the clock.
pub record Primitives : Type 0 where
  pub std_hash : Bytes → Bytes32
  pub int_from_bytes : Bytes → Result ℤ
  pub int_to_bytes : ℕ → Bytes
  pub encoded_filter : List Bytes32 → Bytes
  pub public_key : Bytes → Result Bytes
  pub aggregate_verify : List Bytes → List Bytes → Bytes → Bool → Bool
  pub now : ℕ

module _ (primitives : Primitives) where
  open primitives use {std_hash, int_to_bytes}

  -- `coin.name()`
  unfoldable pub name : Coin → Bytes32
  name coin = std_hash (
      to_bytes 32 coin.parent_coin_info ++ to_bytes 32 coin.puzzle_hash ++ int_to_bytes coin.amount)
