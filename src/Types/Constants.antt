-- ===== src/Types/Constants.antt =====
-- `ConsensusConstants` (tad/consensus/constants.py) and the values of
-- tad/consensus/default_constants.py.
use tad_blockchain.Base.{ℕ, ◌-◌, ◌^◌, ◌*◌, ◌+◌}
use tad_blockchain.Types.Bytes.{Bytes, Bytes32, to_bytes}

pub record ConsensusConstants : Type 0 where
  pub slot_blocks_target : ℕ
  pub min_blocks_per_challenge_block : ℕ
  pub max_sub_slot_blocks : ℕ
  pub num_sps_sub_slot : ℕ
  pub sub_slot_iters_starting : ℕ
  pub difficulty_constant_factor : ℕ
  pub difficulty_starting : ℕ
  pub difficulty_change_max_factor : ℕ
  pub sub_epoch_blocks : ℕ
  pub epoch_blocks : ℕ
  pub significant_bits : ℕ
  pub discriminant_size_bits : ℕ
  pub number_zero_bits_plot_filter : ℕ
  pub min_plot_size : ℕ
  pub max_plot_size : ℕ
  pub sub_slot_time_target : ℕ
  pub num_sp_intervals_extra : ℕ
  pub max_future_time : ℕ
  pub number_of_timestamps : ℕ
  pub genesis_challenge : Bytes32
  pub agg_sig_me_additional_data : Bytes
  pub genesis_pre_farm_pool_puzzle_hash : Bytes32
  pub genesis_pre_farm_farmer_puzzle_hash : Bytes32
  pub max_vdf_witness_size : ℕ
  pub mempool_block_buffer : ℕ
  pub max_coin_amount : ℕ
  pub max_block_cost_clvm : ℕ
  pub cost_per_byte : ℕ
  pub weight_proof_threshold : ℕ
  pub weight_proof_recent_blocks : ℕ
  pub max_block_count_per_requests : ℕ
  pub blocks_cache_size : ℕ
  pub network_type : ℕ
  pub max_generator_size : ℕ
  pub max_generator_ref_list_size : ℕ
  pub pool_sub_slot_iters : ℕ

abbrev pub default_constants : ConsensusConstants
default_constants = record {
  slot_blocks_target = 32;
  min_blocks_per_challenge_block = 16;
  max_sub_slot_blocks = 128;
  num_sps_sub_slot = 64;
  sub_slot_iters_starting = 2 ^ 27;
  difficulty_constant_factor = 2 ^ 67;
  difficulty_starting = 2;
  difficulty_change_max_factor = 3;
  sub_epoch_blocks = 384;
  epoch_blocks = 4608;
  significant_bits = 8;
  discriminant_size_bits = 1024;
  number_zero_bits_plot_filter = 9;
  min_plot_size = 28;
  max_plot_size = 50;
  sub_slot_time_target = 600;
  num_sp_intervals_extra = 3;
  max_future_time = 5 * 60;
  number_of_timestamps = 11;
  genesis_challenge = 0xe3b0c44298fc1c149afbf4c8996fb92427ae41e4649b934ca495991b7852b855;
  agg_sig_me_additional_data =
      to_bytes 32 0xccd5bb71183532bff220ba46c268991a3ff07eb358e8255a65c30a2dce0e5fbb;
  genesis_pre_farm_pool_puzzle_hash =
      0xd23da14695a188ae5708dd152263c4db883eb27edeb936178d4d988b8f3ce5fc;
  genesis_pre_farm_farmer_puzzle_hash =
      0x3d8765d3a597ec1d99663f6c9816d915b9f68613ac94009884c4addaefcce6af;
  max_vdf_witness_size = 64;
  mempool_block_buffer = 50;
  max_coin_amount = 2 ^ 64 - 1;
  max_block_cost_clvm = 11000000000;
  cost_per_byte = 12000;
  weight_proof_threshold = 2;
  blocks_cache_size = 4608 + 128 * 4;
  weight_proof_recent_blocks = 1000;
  max_block_count_per_requests = 32;
  network_type = 0;
  max_generator_size = 1000000;
  max_generator_ref_list_size = 512;
  pool_sub_slot_iters = 37600000000;
}
