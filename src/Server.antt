-- ===== src/Server.antt =====
-- tad/server and tad/protocols: the messages between peers.
pub mod MessageTypes
pub mod RateLimits
