-- ===== src/PageMap.antt =====
-- src/sys/pagemmap.h: the physical page allocator with its reference counts, and the page table of
-- a thread with its list of mapped segments. Addresses and page indices are 64-bit words.
pub mod Alloc
pub mod Segments
pub mod Table
pub mod Refcount
pub mod Supply
pub mod Layout
mod Tests
