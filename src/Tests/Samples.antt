-- ===== src/Tests/Samples.antt =====
-- A small chain with a fork: 0 - 1 - 2 - 3 and 1 - 12, filed in a block cache.
use tad_blockchain.Base.{ℕ, ◌+◌, ◌-◌, ◌*◌, refl, false, none, some, [], arith}
use tad_blockchain.Consensus.BlockCache.{BlockCache, interface, add_block_record}
use tad_blockchain.Consensus.BlockCache.Linked.{add_block_record-IsChain}
use tad_blockchain.Consensus.Chain.{IsChain, IsStored}
use tad_blockchain.Types.BlockRecord.{BlockRecord}

-- A block with the hash, the parent's hash and the height given; every block is a transaction block.
abbrev pub block : ℕ → ℕ → ℕ → BlockRecord
block hash prev height = record {
  header_hash = hash;
  prev_hash = prev;
  height = height;
  weight = 10 * (height + 1);
  total_iters = 1000 * (height + 1);
  signage_point_index = 2;
  challenge_vdf_output = record { contents = [] };
  infused_challenge_vdf_output = none;
  reward_infusion_new_challenge = 0;
  challenge_block_info_hash = 0;
  sub_slot_iters = 6400;
  pool_puzzle_hash = 0;
  farmer_puzzle_hash = 0;
  required_iters = 5;
  deficit = 0;
  overflow = false;
  prev_transaction_block_height = height - 1;
  timestamp = some (600 * (height + 1));
  prev_transaction_block_hash = some prev;
  fees = some 0;
  reward_claims_incorporated = some [];
  finished_challenge_slot_hashes = none;
  finished_infused_challenge_slot_hashes = none;
  finished_reward_slot_hashes = none;
  sub_epoch_summary_included = none;
}

abbrev pub empty_cache : BlockCache
empty_cache = record { block_records = []; height_to_hash_map = []; sub_epoch_summaries = [] }

pub empty-IsChain : IsChain (interface empty_cache)
empty-IsChain = record { named = λ h b e. cc; linked = λ b e above. cc }

abbrev pub cache_0 : BlockCache
cache_0 = add_block_record empty_cache (block 100 99 0)

abbrev pub cache_1 : BlockCache
cache_1 = add_block_record cache_0 (block 101 100 1)

abbrev pub cache_2 : BlockCache
cache_2 = add_block_record cache_1 (block 102 101 2)

abbrev pub cache_3 : BlockCache
cache_3 = add_block_record cache_2 (block 103 102 3)

abbrev pub forked : BlockCache
forked = add_block_record cache_3 (block 112 101 2)

pub cache_0-IsChain : IsChain (interface cache_0)
cache_0-IsChain =
    (add_block_record-IsChain empty_cache (block 100 99 0) empty-IsChain refl
      (λ above. absurd (omega arith))).0

pub cache_1-IsChain : IsChain (interface cache_1)
unfolding add_block_record
cache_1-IsChain =
    (add_block_record-IsChain cache_0 (block 101 100 1) cache_0-IsChain refl (λ _. refl)).0

pub cache_2-IsChain : IsChain (interface cache_2)
unfolding add_block_record
cache_2-IsChain =
    (add_block_record-IsChain cache_1 (block 102 101 2) cache_1-IsChain refl (λ _. refl)).0

pub cache_3-IsChain : IsChain (interface cache_3)
unfolding add_block_record
cache_3-IsChain =
    (add_block_record-IsChain cache_2 (block 103 102 3) cache_2-IsChain refl (λ _. refl)).0

pub forked-IsChain : IsChain (interface forked)
unfolding add_block_record
forked-IsChain =
    (add_block_record-IsChain cache_3 (block 112 101 2) cache_3-IsChain refl (λ _. refl)).0

pub three_filed : IsStored (interface forked) (block 103 102 3)
unfolding add_block_record
three_filed = refl

pub twelve_filed : IsStored (interface forked) (block 112 101 2)
unfolding add_block_record
twelve_filed = refl
