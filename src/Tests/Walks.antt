-- ===== src/Tests/Walks.antt =====
-- A block that is no transaction block, 102, on the sample chain 100 - 101, and one after it.
use tad_blockchain.Base.{
  ℕ, ◌≡◌, ◌+◌, ◌-◌, refl, true, some, none, [], arith, inr, ◌||◌, if◌then◌else◌, ltb, length,
}
use tad_blockchain.Base.Result.{Returns}
use tad_blockchain.Consensus.BlockCache.{BlockCache, interface, add_block_record}
use tad_blockchain.Consensus.BlockCache.Linked.{add_block_record-IsChain}
use tad_blockchain.Consensus.Body.Empty.{has_data, has_refs, validate_block_body-has_data}
use tad_blockchain.Consensus.Body.Foliage.{last_transaction_block}
use tad_blockchain.Base.Int.{pos}
use tad_blockchain.Consensus.Body.Fork.{BodyStores, fetch_reorg, expected_length}
use tad_blockchain.Consensus.Body.Reorg.{IsLinked, first, after, fetch_reorg-expected_length}
use tad_blockchain.Consensus.Body.Rewards.{expected_rewards}
use tad_blockchain.Consensus.Body.Validate.{validate_block_body}
use tad_blockchain.Consensus.Body.Walk.{
  EndsAt, last_transaction_block-Returns, expected_rewards-Returns,
}
use tad_blockchain.Consensus.Chain.{IsChain, IsStored, Extends, self, back}
use tad_blockchain.Tests.Bodies.{primitives, stores}
use tad_blockchain.Tests.Samples.{block, cache_1, cache_1-IsChain}
use tad_blockchain.Types.Block.{FullBlock}
use tad_blockchain.Types.BlockRecord.{BlockRecord}
use tad_blockchain.Types.Constants.{default_constants}
use tad_blockchain.Types.Errors.{valid, invalid, not_block_but_has_data}

abbrev quiet_block : BlockRecord
quiet_block = record (block 102 101 2) { timestamp = none }

abbrev quiet_cache : BlockCache
quiet_cache = add_block_record cache_1 quiet_block

quiet_cache-IsChain : IsChain (interface quiet_cache)
unfolding add_block_record
quiet_cache-IsChain =
    (add_block_record-IsChain cache_1 quiet_block cache_1-IsChain refl (λ _. refl)).0

quiet_filed : IsStored (interface quiet_cache) quiet_block
unfolding add_block_record
quiet_filed = refl

one_filed : IsStored (interface quiet_cache) (block 101 100 1)
unfolding add_block_record
one_filed = refl

quiet-Extends : Extends (interface quiet_cache) quiet_block (block 101 100 1)
quiet-Extends = back (omega arith) one_filed self

one-Extends : Extends (interface quiet_cache) (block 101 100 1) (block 100 99 0)
unfolding add_block_record
one-Extends = back (omega arith) refl self

last_transaction_block-Returns_example :
    Returns
      (last_transaction_block (interface quiet_cache) 4 quiet_block)
      (EndsAt (interface quiet_cache) quiet_cache-IsChain quiet_block (block 101 100 1))
last_transaction_block-Returns_example =
    last_transaction_block-Returns (interface quiet_cache) quiet_cache-IsChain quiet_block
      (block 101 100 1) quiet_filed quiet-Extends refl

expected_rewards-Returns_example :
    Returns (expected_rewards default_constants (interface quiet_cache) 2 101) (λ r. r.0 ≡ 1)
expected_rewards-Returns_example =
    expected_rewards-Returns (interface quiet_cache) quiet_cache-IsChain default_constants 2 0
      (block 101 100 1) (block 100 99 0) (omega arith) one_filed refl (omega arith) one-Extends refl
      (inr (omega arith))

abbrev bare_block : FullBlock
bare_block = record {
  is_full = true;
  height = 3;
  prev_header_hash = 102;
  foliage_transaction_block_hash = none;
  foliage_transaction_block = none;
  transactions_info = none;
  transactions_generator = none;
  transactions_generator_ref_list = [];
}

validate_block_body-has_data_example :
    validate_block_body primitives default_constants
      (interface quiet_cache)
      stores
      (some quiet_block)
      bare_block
      3
      none
      none
    ≡ (if has_data bare_block || has_refs bare_block
        then invalid not_block_but_has_data
        else valid none)
validate_block_body-has_data_example =
    validate_block_body-has_data (interface quiet_cache) quiet_cache-IsChain primitives
      default_constants stores (some quiet_block) bare_block 3 none none quiet_block
      (block 101 100 1) refl refl quiet_filed quiet-Extends refl

-- Two full blocks above the first one, and a fork at height 0.
abbrev bare_at : ℕ → FullBlock
bare_at h = record bare_block { height = h; prev_header_hash = 99 + h }

abbrev linked_stores : BodyStores
linked_stores = record stores {
  get_full_block =
      λ header_hash. if ltb header_hash 100 then none else some (bare_at (header_hash - 100));
}

two-IsLinked : IsLinked linked_stores (bare_at 2)
two-IsLinked = after {p = bare_at 1} refl refl (after {p = bare_at 0} refl refl (first refl))

fetch_reorg-expected_length_example :
    Returns
      (fetch_reorg primitives default_constants linked_stores 4 (pos 0) (bare_at 2) [])
      (λ r. expected_length primitives default_constants linked_stores (pos 0) 3 (length r) ≡ true)
fetch_reorg-expected_length_example =
    fetch_reorg-expected_length primitives default_constants linked_stores 0 (bare_at 2)
      two-IsLinked (omega arith)
