-- ===== src/Isa/Expand.antt =====
-- The expansion of the compressed integer instructions, from the RISC-V manual: which full-size
-- instruction each stands for. The other children show that decode_rv64c agrees.
pub mod Forms
pub mod Quadrant0
pub mod Defs
pub mod Quadrant1
pub mod Quadrant2
pub mod Agree
