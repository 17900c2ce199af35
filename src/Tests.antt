-- ===== src/Tests.antt =====
-- Runs of the model on small inputs, and each theorem with hypotheses at an input that meets them.
pub mod Samples
mod Storage
mod Clock
mod Files
mod Reads
mod Peers
mod Exchange
mod Names
mod Fuse
mod Reachable
mod Swarm
mod Fetches
mod Evictions
mod Network
