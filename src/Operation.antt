-- ===== src/Operation.antt =====
-- src/cpu/operation.cpp: what the execution units compute on integers. A 64-bit register is a number
-- below 2^64; the unions of the source read it as signed or unsigned, whole or by its low word.
-- Signed overflow is taken to wrap, as on the machines the simulator is built for.
pub mod Signed
pub mod Branch
pub mod Integer
pub mod Atomic
pub mod Order
pub mod Product
pub mod Division
pub mod WordResult
mod Tests
