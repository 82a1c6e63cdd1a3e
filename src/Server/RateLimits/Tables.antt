-- ===== src/Server/RateLimits/Tables.antt =====
-- The limits of each kind of message, in tad/server/rate_limits.py.
use tad_blockchain.Base.{ℕ, ◌*◌, Bool, true, false, Option, none, some, [], ◌∷◌}
use tad_blockchain.Base.Dict.{Dict, lookup}
use tad_blockchain.Server.MessageTypes.{
  code, new_transaction, request_transaction, respond_transaction, send_transaction,
  transaction_ack, handshake, harvester_handshake, new_signage_point_harvester, new_proof_of_space,
  request_signatures, respond_signatures, new_signage_point, declare_proof_of_space,
  request_signed_values, farming_info, signed_values, new_peak_timelord,
  new_unfinished_block_timelord, new_signage_point_vdf, new_infusion_point_vdf,
  new_end_of_sub_slot_vdf, request_compact_proof_of_time, respond_compact_proof_of_time, new_peak,
  request_proof_of_weight, respond_proof_of_weight, request_block, reject_block, request_blocks,
  respond_blocks, reject_blocks, respond_block, new_unfinished_block, request_unfinished_block,
  respond_unfinished_block, new_signage_point_or_end_of_sub_slot,
  request_signage_point_or_end_of_sub_slot, respond_signage_point, respond_end_of_sub_slot,
  request_mempool_transactions, request_compact_vdf, respond_compact_vdf, new_compact_vdf,
  request_peers, respond_peers, request_puzzle_solution, respond_puzzle_solution,
  reject_puzzle_solution, new_peak_wallet, request_block_header, respond_block_header,
  reject_header_request, request_removals, respond_removals, reject_removals_request,
  request_additions, respond_additions, reject_additions_request, request_header_blocks,
  reject_header_blocks, respond_header_blocks, request_peers_introducer, respond_peers_introducer,
  farm_new_block, request_plots, respond_plots, coin_state_update, register_interest_in_puzzle_hash,
  respond_to_ph_update, register_interest_in_coin, respond_to_coin_update,
}

pub record RlSettings : Type 0 where
  pub frequency : ℕ
  pub max_size : ℕ
  pub max_total_size : Option ℕ

abbrev settings : ℕ → ℕ → Option ℕ → RlSettings
settings frequency max_size max_total_size = record {
  frequency = frequency;
  max_size = max_size;
  max_total_size = max_total_size;
}

abbrev pub default_settings : RlSettings
default_settings = settings 100 (1024 * 1024) (some (100 * 1024 * 1024))

abbrev pub non_tx_freq : ℕ
non_tx_freq = 1000

abbrev pub non_tx_max_total_size : ℕ
non_tx_max_total_size = 100 * 1024 * 1024

-- The limits of the messages about transactions, by their codes.
abbrev pub rate_limits_tx : Dict RlSettings
rate_limits_tx =
    (code new_transaction, settings 5000 100 (some (5000 * 100)))
    ∷ (code request_transaction, settings 5000 100 (some (5000 * 100)))
    ∷ (code respond_transaction, settings 5000 (1 * 1024 * 1024) (some (20 * 1024 * 1024)))
    ∷ (code send_transaction, settings 5000 (1024 * 1024) none)
    ∷ (code transaction_ack, settings 5000 2048 none)
    ∷ []

-- The limits of the others, which have a limit together too.
abbrev pub rate_limits_other : Dict RlSettings
rate_limits_other =
    (code handshake, settings 5 (10 * 1024) (some (5 * 10 * 1024)))
    ∷ (code harvester_handshake, settings 5 (1024 * 1024) none)
    ∷ (code new_signage_point_harvester, settings 100 1024 none)
    ∷ (code new_proof_of_space, settings 100 2048 none)
    ∷ (code request_signatures, settings 100 2048 none)
    ∷ (code respond_signatures, settings 100 2048 none)
    ∷ (code new_signage_point, settings 200 2048 none)
    ∷ (code declare_proof_of_space, settings 100 (10 * 1024) none)
    ∷ (code request_signed_values, settings 100 512 none)
    ∷ (code farming_info, settings 100 1024 none)
    ∷ (code signed_values, settings 100 1024 none)
    ∷ (code new_peak_timelord, settings 100 (20 * 1024) none)
    ∷ (code new_unfinished_block_timelord, settings 100 (10 * 1024) none)
    ∷ (code new_signage_point_vdf, settings 100 (100 * 1024) none)
    ∷ (code new_infusion_point_vdf, settings 100 (100 * 1024) none)
    ∷ (code new_end_of_sub_slot_vdf, settings 100 (100 * 1024) none)
    ∷ (code request_compact_proof_of_time, settings 100 (10 * 1024) none)
    ∷ (code respond_compact_proof_of_time, settings 100 (100 * 1024) none)
    ∷ (code new_peak, settings 200 512 none)
    ∷ (code request_proof_of_weight, settings 5 100 none)
    ∷ (code respond_proof_of_weight, settings 5 (50 * 1024 * 1024) (some (100 * 1024 * 1024)))
    ∷ (code request_block, settings 200 100 none)
    ∷ (code reject_block, settings 200 100 none)
    ∷ (code request_blocks, settings 500 100 none)
    ∷ (code respond_blocks, settings 100 (50 * 1024 * 1024) (some (5 * 50 * 1024 * 1024)))
    ∷ (code reject_blocks, settings 100 100 none)
    ∷ (code respond_block, settings 200 (2 * 1024 * 1024) (some (10 * 2 * 1024 * 1024)))
    ∷ (code new_unfinished_block, settings 200 100 none)
    ∷ (code request_unfinished_block, settings 200 100 none)
    ∷ (code respond_unfinished_block, settings 200 (2 * 1024 * 1024) (some (10 * 2 * 1024 * 1024)))
    ∷ (code new_signage_point_or_end_of_sub_slot, settings 200 200 none)
    ∷ (code request_signage_point_or_end_of_sub_slot, settings 200 200 none)
    ∷ (code respond_signage_point, settings 200 (50 * 1024) none)
    ∷ (code respond_end_of_sub_slot, settings 100 (50 * 1024) none)
    ∷ (code request_mempool_transactions, settings 5 (1024 * 1024) none)
    ∷ (code request_compact_vdf, settings 200 1024 none)
    ∷ (code respond_compact_vdf, settings 200 (100 * 1024) none)
    ∷ (code new_compact_vdf, settings 100 1024 none)
    ∷ (code request_peers, settings 10 100 none)
    ∷ (code respond_peers, settings 10 (1 * 1024 * 1024) none)
    ∷ (code request_puzzle_solution, settings 1000 100 none)
    ∷ (code respond_puzzle_solution, settings 1000 (1024 * 1024) none)
    ∷ (code reject_puzzle_solution, settings 1000 100 none)
    ∷ (code new_peak_wallet, settings 200 300 none)
    ∷ (code request_block_header, settings 500 100 none)
    ∷ (code respond_block_header, settings 500 (500 * 1024) none)
    ∷ (code reject_header_request, settings 500 100 none)
    ∷ (code request_removals, settings 500 (50 * 1024) (some (10 * 1024 * 1024)))
    ∷ (code respond_removals, settings 500 (1024 * 1024) (some (10 * 1024 * 1024)))
    ∷ (code reject_removals_request, settings 500 100 none)
    ∷ (code request_additions, settings 500 (1024 * 1024) (some (10 * 1024 * 1024)))
    ∷ (code respond_additions, settings 500 (1024 * 1024) (some (10 * 1024 * 1024)))
    ∷ (code reject_additions_request, settings 500 100 none)
    ∷ (code request_header_blocks, settings 500 100 none)
    ∷ (code reject_header_blocks, settings 100 100 none)
    ∷ (code respond_header_blocks, settings 500 (2 * 1024 * 1024) (some (100 * 1024 * 1024)))
    ∷ (code request_peers_introducer, settings 100 100 none)
    ∷ (code respond_peers_introducer, settings 100 (1024 * 1024) none)
    ∷ (code farm_new_block, settings 200 200 none)
    ∷ (code request_plots, settings 10 (10 * 1024 * 1024) none)
    ∷ (code respond_plots, settings 10 (100 * 1024 * 1024) none)
    ∷ (code coin_state_update, settings 1000 (100 * 1024 * 1024) none)
    ∷ (code register_interest_in_puzzle_hash, settings 1000 (100 * 1024 * 1024) none)
    ∷ (code respond_to_ph_update, settings 1000 (100 * 1024 * 1024) none)
    ∷ (code register_interest_in_coin, settings 1000 (100 * 1024 * 1024) none)
    ∷ (code respond_to_coin_update, settings 1000 (100 * 1024 * 1024) none)
    ∷ []

-- The settings of a message, and whether they are of the second table.
unfoldable pub limits_of : ℕ → RlSettings × Bool
limits_of message_type = elim (lookup message_type rate_limits_tx) [
  | some limits ↦ (limits, false)
  | none ↦ elim (lookup message_type rate_limits_other) [
    | some limits ↦ (limits, true)
    | none ↦ (default_settings, false)
  ]
]

abbrev pub total_size : RlSettings → ℕ
total_size limits = elim limits.max_total_size [
  | some size ↦ size
  | none ↦ limits.frequency * limits.max_size
]
