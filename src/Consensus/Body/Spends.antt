-- ===== src/Consensus/Body/Spends.antt =====
-- The checks of a block's body on what it spends and creates (checks 7 to 22).
use tad_blockchain.Base.{
  ℕ, ◌+◌, ◌-◌, Bool, true, false, not, ◌&&◌, ◌||◌, Option, none, some, List, [], ◌∷◌, ◌++◌, map,
  ltb, ◌==◌, if◌then◌else◌,
}
use tad_blockchain.Base.Dict.{Dict, insert, lookup}
use tad_blockchain.Base.Int.{ℤ, pos, negsuc, ltb_ℤ}
use tad_blockchain.Base.Result.{key_error, assertion_error, or_raise, uint128}
use tad_blockchain.Base.Sets.{member}
use tad_blockchain.Consensus.BlockRewards.{calculate_base_farmer_reward}
use tad_blockchain.Consensus.Body.Fork.{BodyStores, NewCoin, SinceFork}
use tad_blockchain.Consensus.Body.Roots.{validate_block_merkle_roots}
use tad_blockchain.Consensus.Cost.{NpcResult, calculate_cost_of_program}
use tad_blockchain.FullNode.MempoolConditions.{mempool_check_conditions_dict}
use tad_blockchain.Types.Block.{FullBlock, FoliageTransactionBlock, TransactionsInfo}
use tad_blockchain.Types.BlockRecord.{Coin, is_some}
use tad_blockchain.Types.Bytes.{Bytes, Bytes32}
use tad_blockchain.Types.Conditions.{
  ConditionWithArgs, CoinRecord, Npc, condition_dict, reserve_fee,
}
use tad_blockchain.Types.Constants.{ConsensusConstants}
use tad_blockchain.Types.Errors.{
  Err, Outcome, valid, invalid, ◌>>=◌, ◌>>◌, call, reject_if, expect, block_cost_exceeds_max,
  return_code, coin_amount_exceeds_maximum, invalid_transactions_filter_hash, duplicate_output,
  double_spend, unknown_unspent, double_spend_in_fork, minting_coin, reserve_fee_condition_failed,
  invalid_block_fee_amount, wrong_puzzle_hash, bad_aggregate_signature,
}
use tad_blockchain.Types.Primitives.{Primitives, name}
use tad_blockchain.Util.ConditionTools.{
  additions_for_npc, conditions_of, var_at, pkm_pairs_for_conditions_dict,
}

-- What the generator of a block costs, spends and creates.
pub record Effects : Type 0 where
  pub cost : ℕ
  pub npc_list : List Npc
  pub additions : List Coin

abbrev pub removals_of : List Npc → List Bytes32
removals_of npc_list = map (λ (npc : Npc). npc.coin_name) npc_list

-- `removals_puzzle_dic`, from what it holds so far.
abbrev pub removals_puzzle_dic : List Npc → Dict Bytes32 → Dict Bytes32
removals_puzzle_dic [] dic = dic
removals_puzzle_dic (npc ∷ rest) dic =
    removals_puzzle_dic rest (insert npc.coin_name npc.puzzle_hash dic)

-- Whether a `Counter` of the list counts something more than once.
abbrev pub has_duplicates : List ℕ → Bool
has_duplicates [] = false
has_duplicates (x ∷ xs) = member x xs || has_duplicates xs

-- `if error: return error`
abbrev pub return_error : Option Err → Outcome (Unit {0})
return_error none = valid tt
return_error (some error) = invalid error

abbrev pub coins_amount : List Coin → ℕ
coins_amount [] = 0
coins_amount (coin ∷ coins) = coin.amount + coins_amount coins

abbrev pub records_amount : Dict CoinRecord → ℕ
records_amount [] = 0
records_amount (entry ∷ records) = entry.1.coin.amount + records_amount records

module _ (primitives : Primitives) (constants : ConsensusConstants) where
  open primitives use {std_hash, int_from_bytes, now, encoded_filter, aggregate_verify}
  open constants use {max_block_cost_clvm, cost_per_byte, max_coin_amount}

  -- Checks 7 and 8, and what a block does that has no generator.
  unfoldable pub run_effects : Option Bytes → Option NpcResult → Outcome Effects
  unfolding calculate_cost_of_program additions_for_npc
  run_effects none npc_result = do
    expect (not (is_some npc_result))
    valid (record { cost = 0; npc_list = []; additions = [] })
  run_effects (some generator) npc_result = do
    npcs ← call (or_raise npc_result assertion_error)
    cost ← call (calculate_cost_of_program generator npcs cost_per_byte)
    reject_if (ltb max_block_cost_clvm cost) block_cost_exceeds_max
    return_code npcs.error
    additions ← call (additions_for_npc primitives npcs.npc_list)
    valid (record { cost = cost; npc_list = npcs.npc_list; additions = additions })

  -- Check 10, with the coins by their names. (An amount is not negative by its type.)
  unfoldable pub index_additions : List Coin → Dict Coin → Outcome (Dict Coin)
  index_additions [] additions_dic = valid additions_dic
  index_additions (coin ∷ rest) additions_dic = do
    reject_if (ltb max_coin_amount coin.amount) coin_amount_exceeds_maximum
    index_additions rest (insert (name primitives coin) coin additions_dic)

  -- Checks 11 to 14; all additions are those of the spends and then the reward coins. (The filter
  -- is that of a set of byte strings.)
  unfoldable pub check_outputs :
      FoliageTransactionBlock → List Coin → List Bytes32 → Outcome (Unit {0})
  unfolding validate_block_merkle_roots
  check_outputs ftb all_additions removals = do
    root_error ← call (
        validate_block_merkle_roots primitives ftb.additions_root ftb.removals_root all_additions
          removals)
    return_error root_error
    let byte_array_tx = map (λ (coin : Coin). coin.puzzle_hash) all_additions ++ removals
    reject_if (not (std_hash (encoded_filter byte_array_tx) == ftb.filter_hash))
        invalid_transactions_filter_hash
    reject_if (has_duplicates (map (λ coin. name primitives coin) all_additions)) duplicate_output
    reject_if (has_duplicates removals) double_spend

  module _ (stores : BodyStores) (height timestamp : ℕ) (fork_h : ℤ) (additions_dic : Dict Coin)
      (since : SinceFork) where
    -- A record of the coin store that counts: confirmed up to the fork.
    abbrev pub before_fork : Option CoinRecord → Option CoinRecord
    before_fork none = none
    before_fork (some unspent) =
        if ltb_ℤ fork_h (pos unspent.confirmed_block_index) then none else some unspent

    unfoldable pub from_fork : Option NewCoin → Outcome CoinRecord
    from_fork none = invalid unknown_unspent
    from_fork (some new) = valid (record {
      coin = new.coin;
      confirmed_block_index = new.confirmed_height;
      spent_block_index = 0;
      spent = false;
      coinbase = false;
      timestamp = new.confirmed_timestamp;
    })

    -- A coin that was made before this block, in the store or since the fork.
    unfoldable pub earlier_record : Option CoinRecord → Option NewCoin → Outcome CoinRecord
    unfolding from_fork
    earlier_record none new = from_fork new
    earlier_record (some unspent) new = do
      reject_if (unspent.spent && not (ltb_ℤ fork_h (pos unspent.spent_block_index))) double_spend
      valid unspent

    -- One round of the loop of check 15, where the block's own coins have the name or not.
    unfoldable pub removal_record : Bytes32 → Option Coin → Outcome CoinRecord
    unfolding earlier_record
    removal_record rem (some rem_coin) = valid (record {
      coin = rem_coin;
      confirmed_block_index = height;
      spent_block_index = height;
      spent = true;
      coinbase = false;
      timestamp = timestamp;
    })
    removal_record rem none = do
      unspent ←
          earlier_record (before_fork (stores.get_coin_record rem)) (lookup rem since.additions)
      reject_if (member rem since.removals) double_spend_in_fork
      valid unspent

    -- The loop, with the records so far, each under its coin's name.
    unfoldable pub removal_records : List Bytes32 → Dict CoinRecord → Outcome (Dict CoinRecord)
    unfolding removal_record
    removal_records [] removal_coin_records = valid removal_coin_records
    removal_records (rem ∷ rest) removal_coin_records = do
      unspent ← removal_record rem (lookup rem additions_dic)
      removal_records rest (insert (name primitives unspent.coin) unspent removal_coin_records)

  -- The sum of the reserved fees.
  unfoldable pub add_fees : List ConditionWithArgs → ℕ → Outcome ℕ
  add_fees [] assert_fee_sum = valid assert_fee_sum
  add_fees (cvp ∷ rest) assert_fee_sum = do
    fee_bytes ← call (var_at cvp 0)
    fee ← call (int_from_bytes fee_bytes)
    elim fee [
      | negsuc n ↦ invalid reserve_fee_condition_failed
      | pos n ↦ do sum ← call (uint128 (assert_fee_sum + n)); add_fees rest sum
    ]

  unfoldable pub reserved_fees : List Npc → ℕ → Outcome ℕ
  unfolding add_fees
  reserved_fees [] assert_fee_sum = valid assert_fee_sum
  reserved_fees (npc ∷ rest) assert_fee_sum = do
    sum ← add_fees (conditions_of reserve_fee (condition_dict npc)) assert_fee_sum
    reserved_fees rest sum

  -- Checks 16 to 19.
  unfoldable pub check_amounts :
      TransactionsInfo → ℕ → Effects → Dict CoinRecord → Outcome (Unit {0})
  unfolding reserved_fees
  check_amounts info height effects removal_coin_records = do
    let removed = records_amount removal_coin_records
    let added = coins_amount effects.additions
    reject_if (ltb removed added) minting_coin
    let fees = removed - added
    assert_fee_sum ← reserved_fees effects.npc_list 0
    reject_if (ltb fees assert_fee_sum) reserve_fee_condition_failed
    reward ← call (calculate_base_farmer_reward height)
    reject_if (ltb max_coin_amount (fees + reward)) coin_amount_exceeds_maximum
    reject_if (not (info.fees == fees)) invalid_block_fee_amount

  -- Check 20.
  unfoldable pub check_puzzles : Dict Bytes32 → Dict CoinRecord → Outcome (Unit {0})
  check_puzzles dic [] = valid tt
  check_puzzles dic (entry ∷ records) = do
    let unspent = entry.1
    puzzle_hash ← call (or_raise (lookup (name primitives unspent.coin) dic) key_error)
    reject_if (not (unspent.coin.puzzle_hash == puzzle_hash)) wrong_puzzle_hash
    check_puzzles dic records

  -- Check 21; the keys and messages that have to be signed.
  unfoldable pub check_conditions :
      ℕ → ℕ → Dict CoinRecord → List Npc → Outcome (List (Bytes × Bytes))
  unfolding mempool_check_conditions_dict pkm_pairs_for_conditions_dict
  check_conditions prev_transaction_block_height timestamp removal_coin_records [] = valid []
  check_conditions prev_transaction_block_height timestamp removal_coin_records (npc ∷ rest) = do
    unspent ← call (or_raise (lookup npc.coin_name removal_coin_records) key_error)
    error ← call (
        mempool_check_conditions_dict int_from_bytes now unspent prev_transaction_block_height
          (some timestamp) (condition_dict npc))
    return_error error
    pairs ← call (
        pkm_pairs_for_conditions_dict primitives (condition_dict npc) npc.coin_name
          constants.agg_sig_me_additional_data)
    others ← check_conditions prev_transaction_block_height timestamp removal_coin_records rest
    valid (pairs ++ others)

  -- Check 22. (A signature is true in Python.)
  unfoldable pub check_signature :
      FullBlock → TransactionsInfo → List (Bytes × Bytes) → Outcome (Unit {0})
  check_signature block info pairs =
      reject_if
        (not (
          aggregate_verify (map (λ (p : Bytes × Bytes). p.0) pairs)
            (map (λ (p : Bytes × Bytes). p.1) pairs) info.aggregated_signature (not block.is_full)))
        bad_aggregate_signature
