-- ===== src/Consensus/Body.antt =====
-- tad/consensus/block_body_validation.py: the checks of a block's body, in their order.
pub mod Rewards
pub mod Roots
pub mod Fork
pub mod Foliage
pub mod Spends
pub mod Validate
pub mod Records
pub mod ForkNames
pub mod Claims
pub mod Accepted
pub mod Safety
pub mod Walk
pub mod Empty
pub mod Reorg
