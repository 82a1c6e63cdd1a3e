-- ===== src/Tests.antt =====
-- Runs at fixed inputs, and the theorems at inputs that meet their hypotheses.
mod Samples
mod Stores
mod Rules
mod Chains
mod Bodies
mod Formats
mod Walks
mod Caches
mod Limits
mod CoinStores
mod Peaks
