-- ===== src/Bus.antt =====
-- src/bus: the network between the caches and the memory nodes. Modelled are the route tables
-- (routetable.cpp) and the symmetric multi-channel bus (symmulcha.cpp): packages, and what nodes and
-- edges do in a cycle.
pub mod Mapping
pub mod Routes
pub mod Hops
pub mod Ring
pub mod Reach
pub mod DoubleRing
pub mod BothWays
pub mod ShortWay
pub mod Packs
pub mod Node
pub mod Tick
pub mod Order
pub mod Reorder
pub mod Latency
pub mod Message
pub mod Edges
pub mod Sums
pub mod Load
pub mod Conserve
pub mod Cycle
pub mod Every
pub mod Wired
pub mod Running
pub mod Always
pub mod Endpoint
pub mod Sending
pub mod Joined
pub mod Delivery
mod Tests
