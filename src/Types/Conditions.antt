-- ===== src/Types/Conditions.antt =====
-- The conditions that puzzles give: tad/types/condition_opcodes.py, condition_with_args.py,
-- name_puzzle_condition.py, coin_record.py, and conditions_by_opcode of tad/util/condition_tools.py.
use tad_blockchain.Base.{ℕ, Bool, List, [], ◌∷◌, ◌++◌, ◌==◌, if◌then◌else◌}
use tad_blockchain.Types.BlockRecord.{Coin}
use tad_blockchain.Types.Bytes.{Bytes, Bytes32}

pub data ConditionOpcode : Type 0 where
  agg_sig_unsafe agg_sig_me : ConditionOpcode
  create_coin reserve_fee : ConditionOpcode
  create_coin_announcement assert_coin_announcement : ConditionOpcode
  create_puzzle_announcement assert_puzzle_announcement : ConditionOpcode
  assert_my_coin_id assert_my_parent_id assert_my_puzzlehash assert_my_amount : ConditionOpcode
  assert_seconds_relative assert_seconds_absolute : ConditionOpcode
  assert_height_relative assert_height_absolute : ConditionOpcode

-- The byte that an opcode is; opcodes are compared by it.
abbrev pub value : ConditionOpcode → ℕ
value agg_sig_unsafe = 49
value agg_sig_me = 50
value create_coin = 51
value reserve_fee = 52
value create_coin_announcement = 60
value assert_coin_announcement = 61
value create_puzzle_announcement = 62
value assert_puzzle_announcement = 63
value assert_my_coin_id = 70
value assert_my_parent_id = 71
value assert_my_puzzlehash = 72
value assert_my_amount = 73
value assert_seconds_relative = 80
value assert_seconds_absolute = 81
value assert_height_relative = 82
value assert_height_absolute = 83

pub record ConditionWithArgs : Type 0 where
  pub opcode : ConditionOpcode
  pub vars : List Bytes

-- A dict from opcodes, in the order of insertion.
abbrev pub ConditionsDict : Type 0
ConditionsDict = List (ConditionOpcode × List ConditionWithArgs)

pub record Npc : Type 0 where
  pub coin_name : Bytes32
  pub puzzle_hash : Bytes32
  pub conditions : ConditionsDict

pub record CoinRecord : Type 0 where
  pub coin : Coin
  pub confirmed_block_index : ℕ
  pub spent_block_index : ℕ
  pub spent : Bool
  pub coinbase : Bool
  pub timestamp : ℕ

-- `d[opcode] = conditions`
abbrev pub set_item : ConditionOpcode → List ConditionWithArgs → ConditionsDict → ConditionsDict
set_item opcode conditions [] = (opcode, conditions) ∷ []
set_item opcode conditions (entry ∷ rest) =
    if value entry.0 == value opcode
    then (entry.0, conditions) ∷ rest
    else entry ∷ set_item opcode conditions rest

-- The loop of condition_dict over the pairs that are left.
abbrev pub fill : ConditionsDict → ConditionsDict → ConditionsDict
fill d [] = d
fill d (entry ∷ rest) = fill (set_item entry.0 entry.1 d) rest

unfoldable pub condition_dict : Npc → ConditionsDict
condition_dict npc = fill [] npc.conditions

-- One round of conditions_by_opcode: a list for the opcode if there is none, and the condition at
-- the end of the list.
abbrev pub append_condition : ConditionWithArgs → ConditionsDict → ConditionsDict
append_condition cvp [] = (cvp.opcode, cvp ∷ []) ∷ []
append_condition cvp (entry ∷ rest) =
    if value entry.0 == value cvp.opcode
    then (entry.0, entry.1 ++ cvp ∷ []) ∷ rest
    else entry ∷ append_condition cvp rest

abbrev pub group_onto : ConditionsDict → List ConditionWithArgs → ConditionsDict
group_onto d [] = d
group_onto d (cvp ∷ rest) = group_onto (append_condition cvp d) rest

unfoldable pub conditions_by_opcode : List ConditionWithArgs → ConditionsDict
conditions_by_opcode conditions = group_onto [] conditions
