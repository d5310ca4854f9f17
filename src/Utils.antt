-- ===== src/Utils.antt =====
-- src/utils: the containers that the stages of a pipeline share, of which each has a value for this
-- cycle and one for the next.
pub mod Saturate
pub mod Training
pub mod Storage
pub mod Priority
pub mod Tagged
pub mod Handshake
pub mod HandshakeQueue
pub mod Pipe
pub mod PipeLoss
pub mod Plru
pub mod Victim
pub mod Ram
mod Tests
