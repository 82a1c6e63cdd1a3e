-- ===== src/Server/MessageTypes.antt =====
-- tad/protocols/protocol_message_types.py: the kinds of messages between the services.
use tad_blockchain.Base.{ℕ, Bool, false, ◌||◌, ◌==◌, List, [], ◌∷◌}

pub data ProtocolMessageTypes : Type 0 where
  handshake harvester_handshake : ProtocolMessageTypes
  new_proof_of_space request_signatures : ProtocolMessageTypes
  respond_signatures new_signage_point : ProtocolMessageTypes
  declare_proof_of_space request_signed_values : ProtocolMessageTypes
  signed_values farming_info : ProtocolMessageTypes
  new_peak_timelord new_unfinished_block_timelord : ProtocolMessageTypes
  new_infusion_point_vdf new_signage_point_vdf : ProtocolMessageTypes
  new_end_of_sub_slot_vdf request_compact_proof_of_time : ProtocolMessageTypes
  respond_compact_proof_of_time new_peak : ProtocolMessageTypes
  new_transaction request_transaction : ProtocolMessageTypes
  respond_transaction request_proof_of_weight : ProtocolMessageTypes
  respond_proof_of_weight request_block : ProtocolMessageTypes
  respond_block reject_block : ProtocolMessageTypes
  request_blocks respond_blocks : ProtocolMessageTypes
  reject_blocks new_unfinished_block : ProtocolMessageTypes
  request_unfinished_block respond_unfinished_block : ProtocolMessageTypes
  new_signage_point_or_end_of_sub_slot request_signage_point_or_end_of_sub_slot :
      ProtocolMessageTypes
  respond_signage_point respond_end_of_sub_slot : ProtocolMessageTypes
  request_mempool_transactions request_compact_vdf : ProtocolMessageTypes
  respond_compact_vdf new_compact_vdf : ProtocolMessageTypes
  request_peers respond_peers : ProtocolMessageTypes
  request_puzzle_solution respond_puzzle_solution : ProtocolMessageTypes
  reject_puzzle_solution send_transaction : ProtocolMessageTypes
  transaction_ack new_peak_wallet : ProtocolMessageTypes
  request_block_header respond_block_header : ProtocolMessageTypes
  reject_header_request request_removals : ProtocolMessageTypes
  respond_removals reject_removals_request : ProtocolMessageTypes
  request_additions respond_additions : ProtocolMessageTypes
  reject_additions_request request_header_blocks : ProtocolMessageTypes
  reject_header_blocks respond_header_blocks : ProtocolMessageTypes
  request_peers_introducer respond_peers_introducer : ProtocolMessageTypes
  farm_new_block new_signage_point_harvester : ProtocolMessageTypes
  request_plots respond_plots : ProtocolMessageTypes
  coin_state_update register_interest_in_puzzle_hash : ProtocolMessageTypes
  respond_to_ph_update register_interest_in_coin : ProtocolMessageTypes
  respond_to_coin_update request_children : ProtocolMessageTypes
  respond_children request_ses_hashes : ProtocolMessageTypes
  respond_ses_hashes : ProtocolMessageTypes

abbrev pub code : ProtocolMessageTypes → ℕ
code handshake = 1
code harvester_handshake = 3
code new_proof_of_space = 5
code request_signatures = 6
code respond_signatures = 7
code new_signage_point = 8
code declare_proof_of_space = 9
code request_signed_values = 10
code signed_values = 11
code farming_info = 12
code new_peak_timelord = 13
code new_unfinished_block_timelord = 14
code new_infusion_point_vdf = 15
code new_signage_point_vdf = 16
code new_end_of_sub_slot_vdf = 17
code request_compact_proof_of_time = 18
code respond_compact_proof_of_time = 19
code new_peak = 20
code new_transaction = 21
code request_transaction = 22
code respond_transaction = 23
code request_proof_of_weight = 24
code respond_proof_of_weight = 25
code request_block = 26
code respond_block = 27
code reject_block = 28
code request_blocks = 29
code respond_blocks = 30
code reject_blocks = 31
code new_unfinished_block = 32
code request_unfinished_block = 33
code respond_unfinished_block = 34
code new_signage_point_or_end_of_sub_slot = 35
code request_signage_point_or_end_of_sub_slot = 36
code respond_signage_point = 37
code respond_end_of_sub_slot = 38
code request_mempool_transactions = 39
code request_compact_vdf = 40
code respond_compact_vdf = 41
code new_compact_vdf = 42
code request_peers = 43
code respond_peers = 44
code request_puzzle_solution = 45
code respond_puzzle_solution = 46
code reject_puzzle_solution = 47
code send_transaction = 48
code transaction_ack = 49
code new_peak_wallet = 50
code request_block_header = 51
code respond_block_header = 52
code reject_header_request = 53
code request_removals = 54
code respond_removals = 55
code reject_removals_request = 56
code request_additions = 57
code respond_additions = 58
code reject_additions_request = 59
code request_header_blocks = 60
code reject_header_blocks = 61
code respond_header_blocks = 62
code request_peers_introducer = 63
code respond_peers_introducer = 64
code farm_new_block = 65
code new_signage_point_harvester = 66
code request_plots = 67
code respond_plots = 68
code coin_state_update = 69
code register_interest_in_puzzle_hash = 70
code respond_to_ph_update = 71
code register_interest_in_coin = 72
code respond_to_coin_update = 73
code request_children = 74
code respond_children = 75
code request_ses_hashes = 76
code respond_ses_hashes = 77

abbrev pub message_types : List ProtocolMessageTypes
message_types =
    handshake ∷ harvester_handshake ∷ new_proof_of_space ∷ request_signatures ∷ respond_signatures
    ∷ new_signage_point ∷ declare_proof_of_space ∷ request_signed_values ∷ signed_values
    ∷ farming_info ∷ new_peak_timelord ∷ new_unfinished_block_timelord ∷ new_infusion_point_vdf
    ∷ new_signage_point_vdf ∷ new_end_of_sub_slot_vdf ∷ request_compact_proof_of_time
    ∷ respond_compact_proof_of_time ∷ new_peak ∷ new_transaction ∷ request_transaction
    ∷ respond_transaction ∷ request_proof_of_weight ∷ respond_proof_of_weight ∷ request_block
    ∷ respond_block ∷ reject_block ∷ request_blocks ∷ respond_blocks ∷ reject_blocks
    ∷ new_unfinished_block ∷ request_unfinished_block ∷ respond_unfinished_block
    ∷ new_signage_point_or_end_of_sub_slot ∷ request_signage_point_or_end_of_sub_slot
    ∷ respond_signage_point ∷ respond_end_of_sub_slot ∷ request_mempool_transactions
    ∷ request_compact_vdf ∷ respond_compact_vdf ∷ new_compact_vdf ∷ request_peers ∷ respond_peers
    ∷ request_puzzle_solution ∷ respond_puzzle_solution ∷ reject_puzzle_solution ∷ send_transaction
    ∷ transaction_ack ∷ new_peak_wallet ∷ request_block_header ∷ respond_block_header
    ∷ reject_header_request ∷ request_removals ∷ respond_removals ∷ reject_removals_request
    ∷ request_additions ∷ respond_additions ∷ reject_additions_request ∷ request_header_blocks
    ∷ reject_header_blocks ∷ respond_header_blocks ∷ request_peers_introducer
    ∷ respond_peers_introducer ∷ farm_new_block ∷ new_signage_point_harvester ∷ request_plots
    ∷ respond_plots ∷ coin_state_update ∷ register_interest_in_puzzle_hash ∷ respond_to_ph_update
    ∷ register_interest_in_coin ∷ respond_to_coin_update ∷ request_children ∷ respond_children
    ∷ request_ses_hashes ∷ respond_ses_hashes ∷ []

abbrev pub has_code : ℕ → List ProtocolMessageTypes → Bool
has_code n [] = false
has_code n (t ∷ types) = code t == n || has_code n types

-- Whether `ProtocolMessageTypes(n)` is a member, and no exception.
abbrev pub is_message_type : ℕ → Bool
is_message_type n = has_code n message_types
