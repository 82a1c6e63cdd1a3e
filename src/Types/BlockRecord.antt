-- ===== src/Types/BlockRecord.antt =====
-- `BlockRecord` (tad/consensus/block_record.py) with the records that it holds, and its
-- properties that need no other component.
use mathlib.Core.Bool.{Bool-discrete}
use mathlib.Core.Option.{discrete}
use mathlib.Core.List.{List-discrete}
use native.Mathlib.Decide.{ℕ_discrete}
use tad_blockchain.Base.{ℕ, ◌-◌, Bool, true, false, Option, none, some, List, ◌==◌}
use tad_blockchain.Types.Bytes.{Bytes, Bytes32}
use tad_blockchain.Types.Constants.{ConsensusConstants}

pub record Coin : Type 0 where
  pub parent_coin_info : Bytes32
  pub puzzle_hash : Bytes32
  pub amount : ℕ

pub record SubEpochSummary : Type 0 where
  pub prev_subepoch_summary_hash : Bytes32
  pub reward_chain_hash : Bytes32
  pub num_blocks_overflow : ℕ
  pub new_difficulty : Option ℕ
  pub new_sub_slot_iters : Option ℕ

pub record ClassgroupElement : Type 0 where
  pub contents : Bytes

pub record BlockRecord : Type 0 where
  pub header_hash : Bytes32
  pub prev_hash : Bytes32
  pub height : ℕ
  pub weight : ℕ
  pub total_iters : ℕ
  pub signage_point_index : ℕ
  pub challenge_vdf_output : ClassgroupElement
  pub infused_challenge_vdf_output : Option ClassgroupElement
  pub reward_infusion_new_challenge : Bytes32
  pub challenge_block_info_hash : Bytes32
  pub sub_slot_iters : ℕ
  pub pool_puzzle_hash : Bytes32
  pub farmer_puzzle_hash : Bytes32
  pub required_iters : ℕ
  pub deficit : ℕ
  pub overflow : Bool
  pub prev_transaction_block_height : ℕ
  pub timestamp : Option ℕ
  pub prev_transaction_block_hash : Option Bytes32
  pub fees : Option ℕ
  pub reward_claims_incorporated : Option (List Coin)
  pub finished_challenge_slot_hashes : Option (List Bytes32)
  pub finished_infused_challenge_slot_hashes : Option (List Bytes32)
  pub finished_reward_slot_hashes : Option (List Bytes32)
  pub sub_epoch_summary_included : Option SubEpochSummary

-- `x is not None`
abbrev pub is_some {ℓ} : {A : Type ℓ} → Option A → Bool
is_some none = false
is_some (some _) = true

abbrev pub is_transaction_block : BlockRecord → Bool
is_transaction_block b = is_some b.timestamp

abbrev pub first_in_sub_slot : BlockRecord → Bool
first_in_sub_slot b = is_some b.finished_challenge_slot_hashes

-- (The minimum is at least 1 in every network, so that the difference is the integer's.)
abbrev pub is_challenge_block : BlockRecord → ConsensusConstants → Bool
is_challenge_block b constants = b.deficit == constants.min_blocks_per_challenge_block - 1

Coin-discrete : Discrete Coin
Coin-discrete = hlevel ℕ_discrete

SubEpochSummary-discrete : Discrete SubEpochSummary
SubEpochSummary-discrete = hlevel (ℕ_discrete, discrete ℕ_discrete)

ClassgroupElement-discrete : Discrete ClassgroupElement
ClassgroupElement-discrete = hlevel (ℕ_discrete, List-discrete ℕ_discrete)

-- `==` of the data class compares field by field.
pub BlockRecord-discrete : Discrete BlockRecord
BlockRecord-discrete = hlevel (
  ℕ_discrete,
  List-discrete ℕ_discrete,
  discrete ℕ_discrete,
  Bool-discrete,
  discrete ClassgroupElement-discrete,
  discrete SubEpochSummary-discrete,
  discrete (List-discrete Coin-discrete),
  discrete (List-discrete ℕ_discrete),
  Coin-discrete,
  SubEpochSummary-discrete,
  ClassgroupElement-discrete,
)
