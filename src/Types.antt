-- ===== src/Types.antt =====
-- The data that the components share (tad/types/blockchain_format, tad/consensus/block_record.py,
-- tad/consensus/constants.py).
pub mod Bytes
pub mod Constants
pub mod BlockRecord
pub mod Conditions
pub mod Errors
pub mod Block
pub mod Primitives
