-- ===== src/TickList.antt =====
-- src/tickqueue.h: the containers whose new entries appear in the next cycle: LimitedTickList,
-- TickList, TickMap and TickMultiMap.
pub mod Limited
pub mod Plain
pub mod Keyed
pub mod Multi
pub mod Bounded
mod Tests
