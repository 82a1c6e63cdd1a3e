-- ===== src/Util.antt =====
-- The general helpers of tad/util that the consensus code rests on.
pub mod ConditionTools
pub mod Streamable
pub mod LruCache
pub mod MerkleSet
pub mod SignificantBits
