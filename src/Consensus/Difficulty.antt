-- ===== src/Consensus/Difficulty.antt =====
-- tad/consensus/difficulty_adjustment.py: `Fetch` reads the blocks of the previous epoch,
-- `EpochEnd` says where epochs end, `Adjust` rounds and limits the new values, `Next` puts them
-- together; the other children prove.
pub mod Fetch
pub mod EpochEnd
pub mod Adjust
pub mod Next
pub mod Limits
pub mod Summary
pub mod Window
