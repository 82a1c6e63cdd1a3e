-- ===== src/Util/ConditionTools.antt =====
-- The outputs and the signed messages of conditions (tad/util/condition_tools.py) and what a list of
-- spends adds and removes (tad/util/generator_tools.py).
use tad_blockchain.Base.{
  ℕ, ◌&&◌, Option, none, some, List, [], ◌∷◌, ◌++◌, map, leb, ◌==◌, if◌then◌else◌, length,
  get_elem?,
}
use tad_blockchain.Base.Int.{ℤ, pos, negsuc}
use tad_blockchain.Base.Result.{
  Result, ok, raise, value_error, index_error, assertion_error, ◌>>=◌, ◌>>◌, assert, or_raise,
  uint64,
}
use tad_blockchain.Types.BlockRecord.{Coin}
use tad_blockchain.Types.Bytes.{Bytes, Bytes32, to_bytes, from_bytes}
use tad_blockchain.Types.Conditions.{
  ConditionOpcode, ConditionWithArgs, ConditionsDict, Npc, value, condition_dict, create_coin,
  agg_sig_unsafe, agg_sig_me,
}
use tad_blockchain.Types.Primitives.{Primitives}

abbrev pub find_conditions : ConditionOpcode → ConditionsDict → Option (List ConditionWithArgs)
find_conditions opcode [] = none
find_conditions opcode (entry ∷ rest) =
    if value entry.0 == value opcode then some entry.1 else find_conditions opcode rest

-- `conditions_dict.get(opcode, [])`
abbrev pub conditions_of : ConditionOpcode → ConditionsDict → List ConditionWithArgs
conditions_of opcode d = elim (find_conditions opcode d) [
  | some conditions ↦ conditions
  | none ↦ []
]

-- `cvp.vars[i]`
abbrev pub var_at : ConditionWithArgs → ℕ → Result Bytes
var_at cvp i = or_raise (get_elem? cvp.vars i) index_error

-- `uint64(amount)`
abbrev pub uint64_of : ℤ → Result ℕ
uint64_of (pos n) = uint64 n
uint64_of (negsuc n) = raise value_error

-- The field of 32 bytes that a coin's constructor makes of a byte string.
abbrev pub bytes32_of : Bytes → Result Bytes32
bytes32_of blob = if length blob == 32 then ok (from_bytes blob) else raise assertion_error

module _ (primitives : Primitives) where
  open primitives use {int_from_bytes, public_key}

  -- The loop over the CREATE_COIN conditions.
  unfoldable pub created_outputs : Bytes32 → List ConditionWithArgs → Result (List Coin)
  created_outputs input_coin_name [] = ok []
  created_outputs input_coin_name (cvp ∷ rest) = do
    puzzle_hash ← var_at cvp 0
    amount_bin ← var_at cvp 1
    amount ← int_from_bytes amount_bin
    coin_amount ← uint64_of amount
    coin_puzzle_hash ← bytes32_of puzzle_hash
    others ← created_outputs input_coin_name rest
    ok (
        (record {
          parent_coin_info = input_coin_name;
          puzzle_hash = coin_puzzle_hash;
          amount = coin_amount;
        })
        ∷ others)

  unfoldable pub created_outputs_for_conditions_dict : ConditionsDict → Bytes32 → Result (List Coin)
  unfolding created_outputs
  created_outputs_for_conditions_dict conditions_dict input_coin_name =
      created_outputs input_coin_name (conditions_of create_coin conditions_dict)

  unfoldable pub additions_for_npc : List Npc → Result (List Coin)
  unfolding created_outputs_for_conditions_dict
  additions_for_npc [] = ok []
  additions_for_npc (npc ∷ rest) = do
    coins ← created_outputs_for_conditions_dict (condition_dict npc) npc.coin_name
    others ← additions_for_npc rest
    ok (coins ++ others)

  unfoldable pub tx_removals_and_additions : List Npc → Result (List Bytes32 × List Coin)
  unfolding additions_for_npc
  tx_removals_and_additions npc_list = do
    additions ← additions_for_npc npc_list
    ok (map (λ (npc : Npc). npc.coin_name) npc_list, additions)

  -- One of the two loops; `suffix` is what is appended to the message.
  unfoldable pub pkm_pairs : Bytes → List ConditionWithArgs → Result (List (Bytes × Bytes))
  pkm_pairs suffix [] = ok []
  pkm_pairs suffix (cwa ∷ rest) = do
    assert (length cwa.vars == 2)
    key ← var_at cwa 0
    message ← var_at cwa 1
    assert (length key == 48 && leb (length message) 1024)
    pk ← public_key key
    others ← pkm_pairs suffix rest
    ok ((pk, message ++ suffix) ∷ others)

  unfoldable pub pkm_pairs_for_conditions_dict :
      ConditionsDict → Bytes32 → Bytes → Result (List (Bytes × Bytes))
  unfolding pkm_pairs
  pkm_pairs_for_conditions_dict conditions_dict coin_name additional_data = do
    unsafe_pairs ← pkm_pairs [] (conditions_of agg_sig_unsafe conditions_dict)
    me_pairs ←
        pkm_pairs (to_bytes 32 coin_name ++ additional_data)
          (conditions_of agg_sig_me conditions_dict)
    ok (unsafe_pairs ++ me_pairs)
