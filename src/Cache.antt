-- ===== src/Cache.antt =====
-- src/cache/cachecommon.h: the set-associative block with LRU replacement, and the table of miss
-- status registers.
pub mod Lru
pub mod Mshr
pub mod Lookup
pub mod Replace
pub mod Whole
pub mod Misses
mod Tests
