-- ===== src/Tests/Peaks.antt =====
-- A heavier block on a shorter fork becomes the peak: 0 - 1 - 2 - 3 and 1 - 12 - 13.
use tad_blockchain.Base.{
  ℕ, ◌+◌, ◌≡◌, refl, Bool, true, false, map, none, some, [], ◌∷◌, arith, Option-cases, inl, inr,
}
use tad_blockchain.Base.Dict.{Dict, lookup}
use tad_blockchain.Base.Int.{pos}
use tad_blockchain.Base.Result.{ok, ◌>>=◌, IfReturns, Returns}
use tad_blockchain.Consensus.BlockCache.{add_block_record as cache_block}
use tad_blockchain.Consensus.Blockchain.{Blockchain, add_block_record}
use tad_blockchain.Consensus.Blockchain.Accept.{IsSound, HeaviestStays, accept_block-HeaviestStays}
use tad_blockchain.Consensus.Blockchain.Collect.{HasFullBlocks, blocks_to_add-ends}
use tad_blockchain.Consensus.Blockchain.Follow.{SameHeights}
use tad_blockchain.Consensus.Blockchain.Genesis.{accept_block-genesis}
use tad_blockchain.Consensus.Blockchain.Path.{
  rows_of, Followed, IsPeak, step, bottom, Spine-Followed,
}
use tad_blockchain.Consensus.Blockchain.Branch.{
  blocks_to_add, follow_records, fork_point, records_of, reversed,
}
use tad_blockchain.Consensus.Blockchain.Peak.{accept_block}
use tad_blockchain.Consensus.Body.Fork.{BodyStores}
use tad_blockchain.Consensus.Chain.{IsChain}
use tad_blockchain.Consensus.ForkPoint.{find_fork_point_in_chain, fork_loop}
use tad_blockchain.Consensus.Blockchain.Stored.{IsNew}
use tad_blockchain.Tests.Bodies.{primitives}
use tad_blockchain.Tests.CoinStores.{empty_store, second_store, second_store-IsStore}
use tad_blockchain.Tests.Samples.{block, empty-IsChain, forked-IsChain}
use tad_blockchain.Types.Block.{FullBlock}
use tad_blockchain.Types.BlockRecord.{BlockRecord}
use tad_blockchain.Types.Bytes.{from_bytes, to_bytes}
use tad_blockchain.Types.Constants.{default_constants}
use tad_blockchain.Types.Primitives.{name}

abbrev full : ℕ → FullBlock
full height = record {
  is_full = true;
  height = height;
  prev_header_hash = 0;
  foliage_transaction_block_hash = none;
  foliage_transaction_block = none;
  transactions_info = none;
  transactions_generator = none;
  transactions_generator_ref_list = [];
}

abbrev stores : BodyStores
stores = record {
  get_full_block = λ h. none;
  get_coin_record = λ h. none;
  get_block_generator = λ b. ok none;
  get_name_puzzle_conditions =
      λ program cost. ok (record { error = none; npc_list = []; clvm_cost = 0 });
}

abbrev rows : Dict BlockRecord
rows =
    (100, block 100 99 0)
    ∷ (101, block 101 100 1)
    ∷ (102, block 102 101 2)
    ∷ (103, block 103 102 3)
    ∷ (112, block 112 101 2)
    ∷ []

rows-IsChain : IsChain (rows_of rows)
unfolding cache_block
rows-IsChain = forked-IsChain

abbrev chain : Blockchain
chain = record {
  block_records = rows;
  heights_in_cache = [];
  heights_to_hashes = (0, 100) ∷ (1, 101) ∷ (2, 102) ∷ (3, 103) ∷ [];
  sub_epoch_summaries = [];
  peak_height = some 3;
  coin_store = second_store;
  block_store = record {
    full_blocks =
        (100, full 0) ∷ (101, full 1) ∷ (102, full 2) ∷ (103, full 3) ∷ (112, full 2) ∷ [];
    block_rows = rows;
    peak_hash = some 103;
  };
  hints = [];
}

chain-SameHeights : SameHeights chain
chain-SameHeights h full r in_full in_rows = ground (arith, in_full, in_rows)

chain-HasFullBlocks : HasFullBlocks chain
chain-HasFullBlocks h r in_rows = elim (Option-cases (lookup h chain.block_store.full_blocks)) [
  | inl missing ↦ absurd (ground (arith, missing, in_rows))
  | inr found ↦ found
]

chain-IsPeak : IsPeak chain (block 103 102 3)
chain-IsPeak = record {
  height = refl;
  cached = refl;
  stored = refl;
  marked = refl;
  followed =
      Spine-Followed rows rows-IsChain [] (block 103 102 3)
        ((full 3, block 103 102 3)
          ∷ (full 2, block 102 101 2)
          ∷ (full 1, block 101 100 1)
          ∷ (full 0, block 100 99 0)
          ∷ [])
        refl
        (step (full 3) refl (omega arith) refl (
          step (full 2) refl (omega arith) refl
            (step (full 1) refl (omega arith) refl (bottom (full 0) refl refl))));
}

chain-IsSound : IsSound primitives chain (block 103 102 3)
chain-IsSound = record {
  chain = rows-IsChain;
  heights = chain-SameHeights;
  peak = chain-IsPeak;
  ledger = record { store = second_store-IsStore; rows = ground arith };
}

-- A block after the block 12, heavier than the peak.
abbrev heavy : BlockRecord
heavy = record (block 113 112 3) { weight = 45 }

heavy-IsNew : IsNew chain (full 3) heavy
heavy-IsNew = record { fresh = refl; height = refl; linked = λ above. refl }

heavy_fork : fork_point chain heavy (block 103 102 3) none ≡ ok (pos 1)
unfolding fork_point find_fork_point_in_chain fork_loop
heavy_fork = refl

heavy_accepted :
    (accept_block primitives default_constants stores chain (full 3) heavy none none >>= λ r.
    ok r.1.heights_to_hashes)
    ≡ ok ((0, 100) ∷ (1, 101) ∷ (2, 112) ∷ (3, 113) ∷ [])
unfolding accept_block add_block_record name from_bytes to_bytes
heavy_accepted = refl

-- The coins of the height 2 are gone, and the spend at that height is undone.
heavy_coins :
    (accept_block primitives default_constants stores chain (full 3) heavy none none >>= λ r. ok (
      map {B = ℕ × ℕ × Bool}
        (λ row. (row.1.coin.amount, row.1.confirmed_block_index, row.1.spent))
        r.1.coin_store.coin_record_db))
    ≡ ok ((7, 1, false) ∷ (8, 1, false) ∷ [])
unfolding accept_block add_block_record name from_bytes to_bytes
heavy_coins = refl

accept_block-HeaviestStays_example :
    IfReturns
      (accept_block primitives default_constants stores chain (full 3) heavy none none)
      (HeaviestStays primitives chain (block 103 102 3) heavy)
accept_block-HeaviestStays_example =
    accept_block-HeaviestStays primitives default_constants stores chain (block 103 102 3) heavy
      (full 3) none none chain-IsSound heavy-IsNew (rw heavy_fork (omega arith, omega arith))

-- A heavier block below the height of the peak: the hash above it stays.
short_accepted :
    (accept_block primitives default_constants stores chain
        (full 2)
        (record (block 122 101 2) { weight = 45 })
        none
        none
      >>= λ r. ok r.1.heights_to_hashes)
    ≡ ok ((0, 100) ∷ (1, 101) ∷ (2, 122) ∷ (3, 103) ∷ [])
unfolding accept_block add_block_record name from_bytes to_bytes
short_accepted = refl

-- From the block 12 down to the block 1.
blocks_to_add-ends_example : Returns (blocks_to_add chain (2 + 1) (pos 1) 112) (λ to_add.
    Followed rows
      (follow_records (records_of (reversed to_add)) chain.heights_to_hashes)
      (block 112 101 2))
blocks_to_add-ends_example =
    blocks_to_add-ends chain (block 103 102 3) (pos 1) rows-IsChain chain-SameHeights
      chain-HasFullBlocks chain-IsPeak (omega arith) (block 112 101 2) refl

-- A blockchain without a block.
abbrev nothing : Blockchain
nothing = record chain {
  coin_store = empty_store;
  block_records = [];
  heights_to_hashes = [];
  peak_height = none;
  block_store = record { full_blocks = []; block_rows = []; peak_hash = none };
}

accept_block-genesis_example :
    IfReturns
      (accept_block primitives default_constants stores nothing (full 0) (block 100 99 0) none none)
      (λ r. IsPeak r.1 (block 100 99 0))
accept_block-genesis_example =
    accept_block-genesis primitives default_constants stores nothing (block 100 99 0) (full 0) none
      none empty-IsChain
      (record { fresh = refl; height = refl; linked = λ above. absurd (omega arith) }) refl refl
