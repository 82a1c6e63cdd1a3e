-- ===== src/FullNode.antt =====
-- tad/full_node: what a full node keeps beside the chain.
pub mod CoinStore
pub mod MempoolConditions
pub mod PendingTxCache
pub mod SyncStore
