-- ===== src/Consensus/Body/Foliage.antt =====
-- The checks of a block's body on its hashes, its reward claims and its generator (checks 1 to 8).
use tad_blockchain.Base.{
  ℕ, zero, suc, ◌+◌, Bool, true, false, not, ◌||◌, none, some, List, [], ◌∷◌, ◌++◌, map, ltb, leb,
  ◌==◌, length,
}
use tad_blockchain.Base.Result.{Result, ok, raise, out_of_fuel}
use tad_blockchain.Base.Result
use tad_blockchain.Consensus.Body.Rewards.{expected_rewards, coin_set, same_coins}
use tad_blockchain.Consensus.Chain.{BlockchainInterface}
use tad_blockchain.Types.Block.{FullBlock, FoliageTransactionBlock, TransactionsInfo}
use tad_blockchain.Types.BlockRecord.{BlockRecord, Coin, is_some, is_transaction_block}
use tad_blockchain.Types.Bytes.{Bytes, Bytes32, to_bytes, from_bytes}
use tad_blockchain.Types.Constants.{ConsensusConstants}
use tad_blockchain.Types.Errors.{
  Outcome, valid, ◌>>=◌, ◌>>◌, call, reject_if, not_block_but_has_data,
  invalid_transactions_info_hash, invalid_foliage_block_hash, invalid_reward_coins,
  invalid_transactions_generator_hash, invalid_transactions_generator_refs_root,
  too_many_generator_refs, future_generator_refs,
}
use tad_blockchain.Types.Primitives.{Primitives}
use tad_blockchain.Util.Streamable.{
  StreamType, uint, sized, list_of, no_fields, field, Value, stream,
}

-- The fields of the data classes, in the order in which they are written.
abbrev pub coin_type : StreamType
coin_type = field (sized 32) (field (sized 32) (field (uint 8) no_fields))

abbrev pub coin_value : Coin → Value coin_type
coin_value coin =
    (to_bytes 32 coin.parent_coin_info, (to_bytes 32 coin.puzzle_hash, (coin.amount, tt)))

abbrev pub transactions_info_type : StreamType
transactions_info_type = field (sized 32) (
    field (sized 32)
      (field (sized 96) (field (uint 8) (field (uint 8) (field (list_of coin_type) no_fields)))))

abbrev pub transactions_info_value : TransactionsInfo → Value transactions_info_type
transactions_info_value info = (
  to_bytes 32 info.generator_root,
  (
    to_bytes 32 info.generator_refs_root,
    (
      info.aggregated_signature,
      (info.fees, (info.cost, (map coin_value info.reward_claims_incorporated, tt))),
    ),
  ),
)

abbrev pub foliage_transaction_block_type : StreamType
foliage_transaction_block_type = field (sized 32) (
    field (uint 8)
      (field (sized 32) (field (sized 32) (field (sized 32) (field (sized 32) no_fields)))))

abbrev pub foliage_transaction_block_value :
    FoliageTransactionBlock → Value foliage_transaction_block_type
foliage_transaction_block_value ftb = (
  to_bytes 32 ftb.prev_transaction_block_hash,
  (
    ftb.timestamp,
    (
      to_bytes 32 ftb.filter_hash,
      (
        to_bytes 32 ftb.additions_root,
        (to_bytes 32 ftb.removals_root, (to_bytes 32 ftb.transactions_info_hash, tt)),
      ),
    ),
  ),
)

-- The bytes of 32-bit numbers, one after the other.
abbrev pub refs_joined : List ℕ → Bytes
refs_joined [] = []
refs_joined (i ∷ refs) = to_bytes 4 i ++ refs_joined refs

abbrev pub any_from : ℕ → List ℕ → Bool
any_from height [] = false
any_from height (index ∷ refs) = leb height index || any_from height refs

-- The walk back to a transaction block.
unfoldable pub last_transaction_block : BlockchainInterface → ℕ → BlockRecord → Result BlockRecord
last_transaction_block blocks zero prev_tb = raise out_of_fuel
last_transaction_block blocks (suc fuel) prev_tb = elim (is_transaction_block prev_tb) [
  | true ↦ ok prev_tb
  | false ↦
      Result.◌>>=◌ (blocks.block_record prev_tb.prev_hash)
        (λ prev. last_transaction_block blocks fuel prev)
]

-- Check 1, of a block that is no transaction block. (The timestamp that is asserted is what makes
-- the walk end.)
unfoldable pub check_no_body : BlockchainInterface → FullBlock → Outcome (Unit {0})
unfolding last_transaction_block
check_no_body blocks block = do
  reject_if
      (is_some block.foliage_transaction_block
        || is_some block.transactions_info
        || is_some block.transactions_generator)
      not_block_but_has_data
  prev ← call (blocks.block_record block.prev_header_hash)
  prev_tb ← call (last_transaction_block blocks (prev.height + 2) prev)
  reject_if (ltb 0 (length block.transactions_generator_ref_list)) not_block_but_has_data

module _ (primitives : Primitives) where
  open primitives use {std_hash}

  -- Checks 3 and 4.
  unfoldable pub check_hashes :
      FoliageTransactionBlock → TransactionsInfo → Bytes32 → Outcome (Unit {0})
  unfolding stream
  check_hashes ftb info foliage_transaction_block_hash = do
    info_bytes ← call (stream transactions_info_type (transactions_info_value info))
    reject_if (not (ftb.transactions_info_hash == std_hash info_bytes))
        invalid_transactions_info_hash
    ftb_bytes ← call (stream foliage_transaction_block_type (foliage_transaction_block_value ftb))
    reject_if (not (foliage_transaction_block_hash == std_hash ftb_bytes))
        invalid_foliage_block_hash

  -- Check 7a.
  unfoldable pub check_generator_root : FullBlock → TransactionsInfo → Outcome (Unit {0})
  check_generator_root block info = elim block.transactions_generator [
    | some generator ↦
        reject_if (not (std_hash generator == info.generator_root))
          invalid_transactions_generator_hash
    | none ↦ reject_if (not (info.generator_root == 0)) invalid_transactions_generator_hash
  ]

  -- Checks 8a to 8c.
  unfoldable pub check_generator_refs :
      ConsensusConstants → FullBlock → TransactionsInfo → ℕ → Outcome (Unit {0})
  check_generator_refs constants block info height = elim block.transactions_generator_ref_list [
    | [] ↦
        reject_if
          (not (
            info.generator_refs_root
            == from_bytes (
                1 ∷ 1 ∷ 1 ∷ 1 ∷ 1 ∷ 1 ∷ 1 ∷ 1 ∷ 1 ∷ 1 ∷ 1 ∷ 1 ∷ 1 ∷ 1 ∷ 1 ∷ 1 ∷ 1 ∷ 1 ∷ 1 ∷ 1 ∷ 1
                ∷ 1 ∷ 1 ∷ 1 ∷ 1 ∷ 1 ∷ 1 ∷ 1 ∷ 1 ∷ 1 ∷ 1 ∷ 1 ∷ [])))
          invalid_transactions_generator_refs_root
    | i ∷ rest ↦ do
      let refs = i ∷ rest
      reject_if (not (is_some block.transactions_generator))
          invalid_transactions_generator_refs_root
      reject_if (not (info.generator_refs_root == std_hash (refs_joined refs)))
          invalid_transactions_generator_refs_root
      reject_if (ltb constants.max_generator_ref_list_size (length refs)) too_many_generator_refs
      reject_if (any_from height refs) future_generator_refs
  ]

-- Check 5; the height of the previous transaction block and the reward coins.
unfoldable pub check_rewards :
    ConsensusConstants
    → BlockchainInterface
    → FoliageTransactionBlock
    → TransactionsInfo
    → ℕ
    → Outcome (ℕ × List Coin)
unfolding expected_rewards
check_rewards constants blocks ftb info height = do
  (prev_height, expected_reward_coins) ←
      call (expected_rewards constants blocks height ftb.prev_transaction_block_hash)
  let claims = info.reward_claims_incorporated
  reject_if (not (same_coins (coin_set claims) expected_reward_coins)) invalid_reward_coins
  reject_if (not (length claims == length expected_reward_coins)) invalid_reward_coins
  valid (prev_height, expected_reward_coins)
