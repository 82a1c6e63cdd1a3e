-- ===== src/FullNode/MempoolConditions.antt =====
-- tad/full_node/mempool_check_conditions.py: the conditions on the height and the time. The reader of
-- CLVM integers (`int_from_bytes` of the clvm package) and the clock are parameters.
pub mod Checks
use tad_blockchain.Base.{ℕ, Bool, Option, none, some, List, [], ◌∷◌, if◌then◌else◌, get_elem?}
use tad_blockchain.Base.Int.{ℤ, pos, ◌+ℤ◌, ltb_ℤ}
use tad_blockchain.Base.Result.{
  Result, ok, raise, value_error, index_error, assertion_error, ◌>>=◌, or_raise,
}
use tad_blockchain.Types.Bytes.{Bytes}
use tad_blockchain.Types.Errors.{
  Err, invalid_condition, assert_height_absolute_failed, assert_height_relative_failed,
  assert_seconds_absolute_failed, assert_seconds_relative_failed,
}
use tad_blockchain.Types.Conditions.{
  ConditionOpcode, ConditionWithArgs, ConditionsDict, CoinRecord, assert_height_absolute,
  assert_height_relative, assert_seconds_absolute, assert_seconds_relative, assert_my_coin_id,
  assert_coin_announcement, assert_puzzle_announcement, assert_my_parent_id, assert_my_puzzlehash,
  assert_my_amount, agg_sig_unsafe, agg_sig_me, create_coin, reserve_fee, create_coin_announcement,
  create_puzzle_announcement,
}

-- `try: ... except ValueError: return Err.INVALID_CONDITION`, with what comes after the `try`.
abbrev pub or_invalid : Result ℤ → (ℤ → Result (Option Err)) → Result (Option Err)
or_invalid (ok number) next = next number
or_invalid (raise value_error) next = ok (some invalid_condition)
or_invalid (raise e) next = raise e

-- `if current < bound: return error`, else `return None`
abbrev pub fail_below : ℕ → ℤ → Err → Result (Option Err)
fail_below current bound error = if ltb_ℤ (pos current) bound then ok (some error) else ok none

-- `if timestamp is None: timestamp = uint64(int(time.time()))`
abbrev pub time_or_now : ℕ → Option ℕ → ℕ
time_or_now now none = now
time_or_now now (some timestamp) = timestamp

module _ (int_from_bytes : Bytes → Result ℤ) (now : ℕ) where
  -- `int_from_bytes(condition.vars[0])`
  abbrev pub first_var : ConditionWithArgs → Result ℤ
  first_var condition = or_raise (get_elem? condition.vars 0) index_error >>= int_from_bytes

  unfoldable pub mempool_assert_absolute_block_height_exceeds :
      ConditionWithArgs → ℕ → Result (Option Err)
  mempool_assert_absolute_block_height_exceeds condition prev_transaction_block_height =
      or_invalid (first_var condition) (λ block_index_exceeds_this.
        fail_below prev_transaction_block_height block_index_exceeds_this
          assert_height_absolute_failed)

  unfoldable pub mempool_assert_relative_block_height_exceeds :
      ConditionWithArgs → CoinRecord → ℕ → Result (Option Err)
  mempool_assert_relative_block_height_exceeds condition unspent prev_transaction_block_height =
      or_invalid (first_var condition) (λ expected_block_age.
        fail_below prev_transaction_block_height
          (expected_block_age +ℤ pos unspent.confirmed_block_index) assert_height_relative_failed)

  unfoldable pub mempool_assert_absolute_time_exceeds :
      ConditionWithArgs → Option ℕ → Result (Option Err)
  mempool_assert_absolute_time_exceeds condition timestamp =
      or_invalid (first_var condition) (λ expected_seconds.
        fail_below (time_or_now now timestamp) expected_seconds assert_seconds_absolute_failed)

  unfoldable pub mempool_assert_relative_time_exceeds :
      ConditionWithArgs → CoinRecord → Option ℕ → Result (Option Err)
  mempool_assert_relative_time_exceeds condition unspent timestamp =
      or_invalid (first_var condition) (λ expected_seconds.
        fail_below (time_or_now now timestamp) (expected_seconds +ℤ pos unspent.timestamp)
          assert_seconds_relative_failed)

  module _ (unspent : CoinRecord) (prev_transaction_block_height : ℕ) (timestamp : Option ℕ) where
    -- The chain of tests on the opcode.
    unfoldable pub check_condition : ConditionOpcode → ConditionWithArgs → Result (Option Err)
    check_condition assert_height_absolute cvp =
        mempool_assert_absolute_block_height_exceeds cvp prev_transaction_block_height
    check_condition assert_height_relative cvp =
        mempool_assert_relative_block_height_exceeds cvp unspent prev_transaction_block_height
    check_condition assert_seconds_absolute cvp = mempool_assert_absolute_time_exceeds cvp timestamp
    check_condition assert_seconds_relative cvp =
        mempool_assert_relative_time_exceeds cvp unspent timestamp
    check_condition assert_my_coin_id cvp = raise assertion_error
    check_condition assert_coin_announcement cvp = raise assertion_error
    check_condition assert_puzzle_announcement cvp = raise assertion_error
    check_condition assert_my_parent_id cvp = raise assertion_error
    check_condition assert_my_puzzlehash cvp = raise assertion_error
    check_condition assert_my_amount cvp = raise assertion_error
    check_condition agg_sig_unsafe cvp = ok none
    check_condition agg_sig_me cvp = ok none
    check_condition create_coin cvp = ok none
    check_condition reserve_fee cvp = ok none
    check_condition create_coin_announcement cvp = ok none
    check_condition create_puzzle_announcement cvp = ok none

    -- The inner loop, with what the outer one goes on to when no condition fails.
    unfoldable pub check_list : List ConditionWithArgs → Result (Option Err) → Result (Option Err)
    unfolding check_condition
    check_list [] next = next
    check_list (cvp ∷ rest) next = do
      let following = check_list rest next
      error ← check_condition cvp.opcode cvp
      elim error [ some e ↦ ok (some e) | none ↦ following ]

    unfoldable pub mempool_check_conditions_dict : ConditionsDict → Result (Option Err)
    unfolding check_list
    mempool_check_conditions_dict [] = ok none
    mempool_check_conditions_dict (entry ∷ rest) =
        check_list entry.1 (mempool_check_conditions_dict rest)
