-- ===== src/Tests/Chains.antt =====
-- The rules that read the chain, on the sample chain.
use tad_blockchain.Base.{◌≡◌, refl, false, some, [], arith}
use tad_blockchain.Base.Int.{pos}
use tad_blockchain.Base.Result.{ok, Returns}
use tad_blockchain.Consensus.BlockCache.{interface, add_block_record}
use tad_blockchain.Consensus.BlockCache.Linked.{add_block_record-IsChain}
use tad_blockchain.Consensus.BlockChallenge.{HeaderBlock, final_eos_is_already_included}
use tad_blockchain.Consensus.BlockChallenge.SlotStart.{
  SlotStartAnswer, final_eos_is_already_included-IsSlotStart,
}
use tad_blockchain.Consensus.Chain.{IsChain, IsStored}
use tad_blockchain.Consensus.Difficulty.EpochEnd.{can_finish_sub_and_full_epoch}
use tad_blockchain.Consensus.Difficulty.Summary.{Answers, can_finish-Answers}
use tad_blockchain.Consensus.Difficulty.Fetch.{get_blocks_at_height}
use tad_blockchain.Consensus.Difficulty.Window.{IsRun, get_blocks_at_height-IsRun}
use tad_blockchain.Consensus.ForkPoint.{find_fork_point_in_chain}
use tad_blockchain.Consensus.ForkPoint.Ancestor.{
  IsLastCommon, find_fork_point_in_chain-IsLastCommon,
}
use tad_blockchain.Tests.Samples.{
  block, cache_3, forked, cache_3-IsChain, forked-IsChain, three_filed, twelve_filed,
}
use tad_blockchain.Types.BlockRecord.{BlockRecord}
use tad_blockchain.Types.Constants.{ConsensusConstants, default_constants}

add_block_record-IsChain_example :
    IsChain (interface forked)
    × IsStored (interface forked) (block 112 101 2)
    × ((c : BlockRecord) → IsStored (interface cache_3) c → IsStored (interface forked) c)
unfolding add_block_record
add_block_record-IsChain_example =
    add_block_record-IsChain cache_3 (block 112 101 2) cache_3-IsChain refl (λ _. refl)

fork_of_sample :
    find_fork_point_in_chain (interface forked) (block 103 102 3) (block 112 101 2) ≡ ok (pos 1)
unfolding find_fork_point_in_chain add_block_record
fork_of_sample = refl

find_fork_point_in_chain-IsLastCommon_example :
    Returns
      (find_fork_point_in_chain (interface forked) (block 103 102 3) (block 112 101 2))
      (IsLastCommon (interface forked) (block 103 102 3) (block 112 101 2))
find_fork_point_in_chain-IsLastCommon_example =
    find_fork_point_in_chain-IsLastCommon (interface forked) forked-IsChain (block 103 102 3)
      (block 112 101 2) three_filed twelve_filed

-- Sub-epochs of three blocks and epochs of six, so that the sample has a whole one.
abbrev short_epochs : ConsensusConstants
short_epochs = record default_constants { sub_epoch_blocks = 3; epoch_blocks = 6 }

can_finish-Answers_example :
    Returns
      (can_finish_sub_and_full_epoch short_epochs (interface forked) 4 (some 103) 0 false)
      (Answers short_epochs (interface forked) (block 103 102 3) 4 0 false)
can_finish-Answers_example =
    can_finish-Answers short_epochs (interface forked) forked-IsChain (block 103 102 3) three_filed
      4 0 false (omega arith) (omega arith) (omega arith)

get_blocks_at_height-IsRun_example :
    Returns
      (get_blocks_at_height (interface forked) (block 102 101 2) 1 2)
      (IsRun (interface forked) (block 102 101 2) 1 2)
unfolding add_block_record
get_blocks_at_height-IsRun_example =
    get_blocks_at_height-IsRun (interface forked) (block 102 101 2) forked-IsChain refl 1 2
      (omega arith) (omega arith) (λ on_chain. cc)

abbrev header : HeaderBlock
header = record { finished_sub_slots = []; prev_header_hash = 103; total_iters = 4500 }

final_eos_is_already_included-IsSlotStart_example :
    Returns
      (final_eos_is_already_included (interface forked) header 6400)
      (SlotStartAnswer (interface forked) header 6400 (block 103 102 3))
final_eos_is_already_included-IsSlotStart_example =
    final_eos_is_already_included-IsSlotStart (interface forked) header 6400 forked-IsChain
      (block 103 102 3) three_filed
