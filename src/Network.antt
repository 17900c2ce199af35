-- ===== src/Network.antt =====
-- src/network/: the handlers of network events.
pub mod Protocol
pub mod Swarm
pub mod Fetcher
pub mod Channel
pub mod Replication
pub mod Exchange
pub mod Dispatcher
pub mod Bridge
