-- ===== src/Moesi.antt =====
-- src/cache/moesi: the caches that keep coherence by the MOESI protocol over a directory. Modelled are
-- the messages (protocal.h, protocal.cpp) and the first-level cache (l1cachev2.h, l1cachev2.cpp).
pub mod Codes
pub mod Message
pub mod Packing
pub mod L1
pub mod MemNode
pub mod Llc
pub mod MemWrites
mod Tests
