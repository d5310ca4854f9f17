-- ===== src/Isa/Codes.antt =====
-- The enumerations of src/cpu/isa.h and src/cpu/amo.h. The decoder casts instruction fields to
-- them unchecked, so a value of such a type is any number, and the enumerators are constants.
pub mod OpCode
pub mod IntOp
pub mod BranchOp
pub mod LsWidth
pub mod AmoOp
pub mod FpOp
pub mod Flag
