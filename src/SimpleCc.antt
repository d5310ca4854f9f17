-- ===== src/SimpleCc.antt =====
-- src/cache/simplecc: first-level caches and a shared last-level cache with memory, which talk over
-- bundles of registers and keep coherence by snooping.
pub mod Codes
pub mod Port
pub mod L1
pub mod Llc
pub mod Handshake
pub mod Owned
pub mod Memory
pub mod Holders
pub mod Readu
pub mod Arbiter
pub mod Cycles
pub mod Transfer
mod Tests
