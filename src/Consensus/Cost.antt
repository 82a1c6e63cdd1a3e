-- ===== src/Consensus/Cost.antt =====
-- tad/consensus/cost_calculator.py, with the costs of tad/consensus/condition_costs.py.
use tad_blockchain.Base.{ℕ, ◌+◌, ◌*◌, Option, List, [], ◌∷◌, length}
use tad_blockchain.Base.Result.{Result, uint64}
use tad_blockchain.Types.Bytes.{Bytes}
use tad_blockchain.Types.Conditions.{
  ConditionOpcode, ConditionsDict, Npc, condition_dict, agg_sig_unsafe, agg_sig_me, create_coin,
  reserve_fee, create_coin_announcement, assert_coin_announcement, create_puzzle_announcement,
  assert_puzzle_announcement, assert_my_coin_id, assert_my_parent_id, assert_my_puzzlehash,
  assert_my_amount, assert_seconds_relative, assert_seconds_absolute, assert_height_relative,
  assert_height_absolute,
}

pub record NpcResult : Type 0 where
  pub error : Option ℕ
  pub npc_list : List Npc
  pub clvm_cost : ℕ

-- The cost of one condition: the chain of tests picks the member of `ConditionCost`.
abbrev pub condition_cost : ConditionOpcode → ℕ
condition_cost agg_sig_unsafe = 1200000
condition_cost agg_sig_me = 1200000
condition_cost create_coin = 1800000
condition_cost assert_seconds_absolute = 0
condition_cost assert_seconds_relative = 0
condition_cost assert_height_absolute = 0
condition_cost assert_height_relative = 0
condition_cost assert_my_coin_id = 0
condition_cost assert_my_parent_id = 0
condition_cost assert_my_puzzlehash = 0
condition_cost assert_my_amount = 0
condition_cost reserve_fee = 0
condition_cost create_coin_announcement = 0
condition_cost assert_coin_announcement = 0
condition_cost create_puzzle_announcement = 0
condition_cost assert_puzzle_announcement = 0

-- The inner loop, from the cost so far.
abbrev pub add_conditions : ℕ → ConditionsDict → ℕ
add_conditions total_cost [] = total_cost
add_conditions total_cost (entry ∷ rest) =
    add_conditions (total_cost + length entry.1 * condition_cost entry.0) rest

abbrev pub add_npcs : ℕ → List Npc → ℕ
add_npcs total_cost [] = total_cost
add_npcs total_cost (npc ∷ rest) = add_npcs (add_conditions total_cost (condition_dict npc)) rest

unfoldable pub calculate_cost_of_program : Bytes → NpcResult → ℕ → Result ℕ
calculate_cost_of_program program npc_result cost_per_byte =
    uint64 (add_npcs npc_result.clvm_cost npc_result.npc_list + length program * cost_per_byte)
