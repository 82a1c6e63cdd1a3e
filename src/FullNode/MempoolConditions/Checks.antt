-- ===== src/FullNode/MempoolConditions/Checks.antt =====
-- When the mempool's checks of height and time pass.
use tad_blockchain.Base.{
  ℕ, ◌≡◌, ◌↔◌, refl, Option, none, some, List, [], ◌∷◌, arith, Bool-cases, inl, inr,
}
use tad_blockchain.Base.Int.{ℤ, pos, ◌+ℤ◌, ◌≤ℤ◌, ltb_ℤ}
use tad_blockchain.Base.Result.{
  Result, ok, raise, value_error, ◌>>=◌, Exn, key_error, index_error, assertion_error,
  zero_division_error, set_error, integrity_error, out_of_fuel,
}
use tad_blockchain.Base.Result.{ok-injective}
use tad_blockchain.Types.Errors.{Err}
use tad_blockchain.FullNode.MempoolConditions.{
  or_invalid, fail_below, time_or_now, first_var, mempool_assert_absolute_block_height_exceeds,
  mempool_assert_relative_block_height_exceeds, mempool_assert_absolute_time_exceeds,
  mempool_assert_relative_time_exceeds, check_condition, check_list, mempool_check_conditions_dict,
}
use tad_blockchain.Types.Bytes.{Bytes}
use tad_blockchain.Types.Conditions.{
  ConditionOpcode, ConditionWithArgs, ConditionsDict, CoinRecord, assert_height_absolute,
  assert_height_relative, assert_seconds_absolute, assert_seconds_relative, assert_my_coin_id,
  assert_coin_announcement, assert_puzzle_announcement, assert_my_parent_id, assert_my_puzzlehash,
  assert_my_amount, agg_sig_unsafe, agg_sig_me, create_coin, reserve_fee, create_coin_announcement,
  create_puzzle_announcement,
}

abbrev pub Passes : Result ℤ → (ℤ → ℤ) → ℕ → Type 0
Passes var bound current = (number : ℤ) × (var ≡ ok number) × (bound number ≤ℤ pos current)

fail_below_iff :
    (current : ℕ) (bound : ℤ) (error : Err)
    → (fail_below current bound error ≡ ok none) ↔ (bound ≤ℤ pos current)
fail_below_iff current bound error = elim (Bool-cases (ltb_ℤ (pos current) bound)) [
  | inl below ↦ rw below (λ e. cc, λ le. absurd (ground arith))
  | inr fine ↦ rw fine (λ e. ground arith, λ le. refl)
]

or_invalid_iff :
    (var : Result ℤ) (bound : ℤ → ℤ) (current : ℕ) (error : Err)
    → (or_invalid var (λ number. fail_below current (bound number) error) ≡ ok none)
      ↔ Passes var bound current
or_invalid_iff (ok number) bound current error =
    let (there, back) = fail_below_iff current (bound number) error in
    (λ e. (number, refl, there e), λ (n, same, le). back (rw (ok-injective same) le))
or_invalid_iff (raise e) bound current error =
    (λ passed. absurd (raised e passed), λ (number, same, le). cc)
  where
    raised :
        (e : Exn)
        → or_invalid (raise e) (λ number. fail_below current (bound number) error) ≡ ok none
        → ⊥
    raised value_error h = cc
    raised key_error h = cc
    raised index_error h = cc
    raised assertion_error h = cc
    raised zero_division_error h = cc
    raised set_error h = cc
    raised integrity_error h = cc
    raised out_of_fuel h = cc

module _ (int_from_bytes : Bytes → Result ℤ) (now : ℕ) (unspent : CoinRecord) (height : ℕ)
    (timestamp : Option ℕ) where
  -- What a condition of each kind asks; the kinds that are checked elsewhere must not be there.
  abbrev pub Satisfied : ConditionOpcode → ConditionWithArgs → Type 0
  Satisfied assert_height_absolute cvp = Passes (first_var int_from_bytes now cvp) (λ n. n) height
  Satisfied assert_height_relative cvp =
      Passes (first_var int_from_bytes now cvp) (λ n. n +ℤ pos unspent.confirmed_block_index) height
  Satisfied assert_seconds_absolute cvp =
      Passes (first_var int_from_bytes now cvp) (λ n. n) (time_or_now now timestamp)
  Satisfied assert_seconds_relative cvp =
      Passes (first_var int_from_bytes now cvp) (λ n. n +ℤ pos unspent.timestamp)
        (time_or_now now timestamp)
  Satisfied assert_my_coin_id cvp = ⊥
  Satisfied assert_coin_announcement cvp = ⊥
  Satisfied assert_puzzle_announcement cvp = ⊥
  Satisfied assert_my_parent_id cvp = ⊥
  Satisfied assert_my_puzzlehash cvp = ⊥
  Satisfied assert_my_amount cvp = ⊥
  Satisfied agg_sig_unsafe cvp = Unit
  Satisfied agg_sig_me cvp = Unit
  Satisfied create_coin cvp = Unit
  Satisfied reserve_fee cvp = Unit
  Satisfied create_coin_announcement cvp = Unit
  Satisfied create_puzzle_announcement cvp = Unit

  abbrev pub AllSatisfied : List ConditionWithArgs → Type 0
  AllSatisfied [] = Unit
  AllSatisfied (cvp ∷ rest) = Satisfied cvp.opcode cvp × AllSatisfied rest

  abbrev pub EverySatisfied : ConditionsDict → Type 0
  EverySatisfied [] = Unit
  EverySatisfied (entry ∷ rest) = AllSatisfied entry.1 × EverySatisfied rest

  check_condition_iff :
      (opcode : ConditionOpcode) (cvp : ConditionWithArgs)
      → (check_condition int_from_bytes now unspent height timestamp opcode cvp ≡ ok none)
        ↔ Satisfied opcode cvp
  unfolding check_condition mempool_assert_absolute_block_height_exceeds
      mempool_assert_relative_block_height_exceeds mempool_assert_absolute_time_exceeds
      mempool_assert_relative_time_exceeds
  check_condition_iff assert_height_absolute cvp = or_invalid_iff _ (λ n. n) height _
  check_condition_iff assert_height_relative cvp =
      or_invalid_iff _ (λ n. n +ℤ pos unspent.confirmed_block_index) height _
  check_condition_iff assert_seconds_absolute cvp =
      or_invalid_iff _ (λ n. n) (time_or_now now timestamp) _
  check_condition_iff assert_seconds_relative cvp =
      or_invalid_iff _ (λ n. n +ℤ pos unspent.timestamp) (time_or_now now timestamp) _
  check_condition_iff assert_my_coin_id cvp = (λ e. cc, λ h. absurd h)
  check_condition_iff assert_coin_announcement cvp = (λ e. cc, λ h. absurd h)
  check_condition_iff assert_puzzle_announcement cvp = (λ e. cc, λ h. absurd h)
  check_condition_iff assert_my_parent_id cvp = (λ e. cc, λ h. absurd h)
  check_condition_iff assert_my_puzzlehash cvp = (λ e. cc, λ h. absurd h)
  check_condition_iff assert_my_amount cvp = (λ e. cc, λ h. absurd h)
  check_condition_iff agg_sig_unsafe cvp = (λ e. tt, λ h. refl)
  check_condition_iff agg_sig_me cvp = (λ e. tt, λ h. refl)
  check_condition_iff create_coin cvp = (λ e. tt, λ h. refl)
  check_condition_iff reserve_fee cvp = (λ e. tt, λ h. refl)
  check_condition_iff create_coin_announcement cvp = (λ e. tt, λ h. refl)
  check_condition_iff create_puzzle_announcement cvp = (λ e. tt, λ h. refl)

  passed_first :
      (first next : Result (Option Err))
      → (first >>= λ error. elim error [ some e ↦ ok (some e) | none ↦ next ]) ≡ ok none
      → (first ≡ ok none) × (next ≡ ok none)
  passed_first (ok none) next e = (refl, e)
  passed_first (ok (some error)) next e = absurd cc
  passed_first (raise exn) next e = absurd cc

  check_list_iff :
      (conditions : List ConditionWithArgs) (next : Result (Option Err))
      → (check_list int_from_bytes now unspent height timestamp conditions next ≡ ok none)
        ↔ (AllSatisfied conditions × (next ≡ ok none))
  unfolding check_list
  check_list_iff [] next = (λ e. (tt, e), λ h. h.1)
  check_list_iff (cvp ∷ rest) next = (
    λ e.
        let (first, following) = passed_first _ _ e in
        let (others, next_ok) = (check_list_iff rest next).0 following in
        (((check_condition_iff cvp.opcode cvp).0 first, others), next_ok),
    λ ((first, others), next_ok).
        rw
          (
            (check_condition_iff cvp.opcode cvp).1 first,
            (check_list_iff rest next).1 (others, next_ok),
          )
          refl,
  )

  -- The checks return None exactly when every condition on a height or a time holds and there is no
  -- condition of a kind that the generator's program has to have checked: a height that is reached
  -- passes, and a first argument that is missing or no integer does not.
  pub mempool_check_conditions_dict-EverySatisfied :
      (conditions : ConditionsDict)
      → (mempool_check_conditions_dict int_from_bytes now unspent height timestamp conditions
          ≡ ok none)
        ↔ EverySatisfied conditions
  unfolding mempool_check_conditions_dict
  mempool_check_conditions_dict-EverySatisfied [] = (λ e. tt, λ h. refl)
  mempool_check_conditions_dict-EverySatisfied (entry ∷ rest) =
      let (there, back) = check_list_iff entry.1 _ in
      let (there', back') = mempool_check_conditions_dict-EverySatisfied rest in
      (
        λ e. let (first, others) = there e in (first, there' others),
        λ (first, others). back (first, back' others),
      )
