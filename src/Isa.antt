-- ===== src/Isa.antt =====
-- src/cpu/isa.h and src/cpu/isa.cpp: the RV64GC decoder and the fetch unit's predecoder.
pub mod Codes
pub mod Fields
pub mod Decoded
pub mod Compressed
pub mod Decode
pub mod Predecode
pub mod Agree
pub mod Target
pub mod Encode
pub mod RoundTrip
pub mod Expand
pub mod Bounds
pub mod FloatForms
pub mod Sext
pub mod Immediates
mod Tests
