-- ===== src/Consensus/Blockchain/Branch.antt =====
-- tad/consensus/blockchain.py: where the chain of a new peak leaves the old one, the blocks that it
-- brings, and the caches by height that follow it.
use tad_blockchain.Base.{
  ℕ, zero, suc, Bool, true, false, Option, none, some, List, [], ◌∷◌, ◌++◌, ◌==◌, if◌then◌else◌,
}
use tad_blockchain.Base.Dict.{Dict, insert, lookup}
use tad_blockchain.Base.Int.{ℤ, pos, negsuc, ltb_ℤ}
use tad_blockchain.Base.Result.{Result, ok, raise, assertion_error, out_of_fuel, ◌>>=◌, or_raise}
use tad_blockchain.Consensus.Blockchain.{Blockchain, height_to_hash, interface}
use tad_blockchain.Consensus.ForkPoint.{find_fork_point_in_chain}
use tad_blockchain.Types.Block.{FullBlock}
use tad_blockchain.Types.BlockRecord.{BlockRecord, SubEpochSummary}
use tad_blockchain.Types.Bytes.{Bytes32}

-- The fork is the peak where the block follows it.
unfoldable pub fork_point : Blockchain → BlockRecord → BlockRecord → Option ℕ → Result ℤ
unfolding find_fork_point_in_chain
fork_point self block_record peak fork_point_with_peak =
    if block_record.prev_hash == peak.header_hash
    then ok (pos peak.height)
    else elim fork_point_with_peak [
      | some height ↦ ok (pos height)
      | none ↦ find_fork_point_in_chain (interface self) block_record peak
    ]

abbrev pub drop_summaries : ℤ → Dict SubEpochSummary → Dict SubEpochSummary
drop_summaries fork_height [] = []
drop_summaries fork_height (entry ∷ summaries) =
    let rest = drop_summaries fork_height summaries in
    if ltb_ℤ fork_height (pos entry.0) then rest else entry ∷ rest

-- The `while` condition, negated: the block is the one at the fork's height.
abbrev pub at_fork : Blockchain → ℤ → Bytes32 → Result Bool
at_fork self (negsuc n) curr = ok false
at_fork self (pos height) curr = do
  header_hash ← height_to_hash self height
  ok (curr == header_hash)

-- The `while` loop, for at most `fuel` rounds: the blocks after the fork, the latest first.
unfoldable pub blocks_to_add :
    Blockchain → ℕ → ℤ → Bytes32 → Result (List (FullBlock × BlockRecord))
blocks_to_add self zero fork_height curr = raise out_of_fuel
blocks_to_add self (suc fuel) fork_height curr = do
  found ← at_fork self fork_height curr
  elim found [
    | true ↦ ok []
    | false ↦ do
      full ← or_raise (lookup curr self.block_store.full_blocks) assertion_error
      fetched ← or_raise (lookup curr self.block_store.block_rows) assertion_error
      elim (full.height == 0) [
        | true ↦ ok ((full, fetched) ∷ [])
        | false ↦ do
          rest ← blocks_to_add self fuel fork_height fetched.prev_hash
          ok ((full, fetched) ∷ rest)
      ]
  ]

abbrev pub reversed {ℓ} : {A : Type ℓ} → List A → List A
reversed [] = []
reversed (x ∷ xs) = reversed xs ++ x ∷ []

abbrev pub records_of : List (FullBlock × BlockRecord) → List BlockRecord
records_of [] = []
records_of (pair ∷ pairs) = pair.1 ∷ records_of pairs

-- The loop over the records in `receive_block`.
abbrev pub follow_records : List BlockRecord → Dict Bytes32 → Dict Bytes32
follow_records [] heights_to_hashes = heights_to_hashes
follow_records (b ∷ records) heights_to_hashes =
    follow_records records (insert b.height b.header_hash heights_to_hashes)

abbrev pub add_summaries : List BlockRecord → Dict SubEpochSummary → Dict SubEpochSummary
add_summaries [] summaries = summaries
add_summaries (b ∷ records) summaries = add_summaries records (elim b.sub_epoch_summary_included [
  | none ↦ summaries
  | some ses ↦ insert b.height ses summaries
])
