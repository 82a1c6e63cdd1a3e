-- ===== src/Consensus/ForkPoint.antt =====
-- tad/consensus/find_fork_point.py, on two block records. (The function also takes header blocks,
-- of which it reads the same fields.)
pub mod Ancestor
use mathlib.Core.Logic.{ite}
use tad_blockchain.Base.{ℕ, zero, suc, ◌+◌, ltb, ◌==◌, ◌||◌, true, false, if◌then◌else◌}
use tad_blockchain.Base.Int.{ℤ, pos, negsuc}
use tad_blockchain.Base.Result.{Result, ok, raise, out_of_fuel, ◌>>=◌}
use tad_blockchain.Consensus.Chain.{BlockchainInterface}
use tad_blockchain.Types.BlockRecord.{BlockRecord, BlockRecord-discrete}

module _ (blocks : BlockchainInterface) where
  open blocks use {block_record}

  -- The `while` loop and what follows it, for at most `fuel` rounds.
  unfoldable pub fork_loop : ℕ → BlockRecord → BlockRecord → Result ℤ
  fork_loop zero block_1 block_2 = raise out_of_fuel
  fork_loop (suc fuel) block_1 block_2 = elim (ltb 0 block_2.height || ltb 0 block_1.height) [
    | true ↦ elim (ltb block_1.height block_2.height) [
      | true ↦ do block_2' ← block_record block_2.prev_hash; fork_loop fuel block_1 block_2'
      | false ↦ elim (ltb block_2.height block_1.height) [
        | true ↦ do block_1' ← block_record block_1.prev_hash; fork_loop fuel block_1' block_2
        | false ↦ elim (block_2.header_hash == block_1.header_hash) [
          | true ↦ ok (pos block_2.height)
          | false ↦ do
            block_2' ← block_record block_2.prev_hash
            block_1' ← block_record block_1.prev_hash
            fork_loop fuel block_1' block_2'
        ]
      ]
    ]
    | false ↦ ite (BlockRecord-discrete block_2 block_1) (ok (pos 0)) (ok (negsuc 0))
  ]

  -- Each round lowers the sum of the heights.
  unfoldable pub find_fork_point_in_chain : BlockRecord → BlockRecord → Result ℤ
  unfolding fork_loop
  find_fork_point_in_chain block_1 block_2 =
      fork_loop (block_1.height + block_2.height + 1) block_1 block_2
