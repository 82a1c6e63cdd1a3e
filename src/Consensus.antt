-- ===== src/Consensus.antt =====
-- The rules of consensus (tad/consensus).
pub mod PotIterations
pub mod Cost
pub mod BlockChallenge
pub mod Body
pub mod Deficit
pub mod BlockRewards
pub mod Chain
pub mod BlockCache
pub mod Blockchain
pub mod ForkPoint
pub mod BlockIters
pub mod Difficulty
