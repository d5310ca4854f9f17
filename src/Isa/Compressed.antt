-- ===== src/Isa/Compressed.antt =====
-- src/cpu/isa.cpp: decode_rv64c, by the quadrant in the low two bits. The children hold the three
-- quadrants and the immediates.
pub mod Imm
pub mod Quadrant0
pub mod Quadrant1
pub mod Quadrant2
use nullrvsim.Prelude.{ℕ, Bool, false, ◌==◌, if◌then◌else◌}
use nullrvsim.Isa.Codes.Flag
use nullrvsim.Isa.Decoded.{Decoded, add_flag}
use nullrvsim.Isa.Fields.{get_bits}
use Quadrant0.{decode_quadrant0}
use Quadrant1.{decode_quadrant1}
use Quadrant2.{decode_quadrant2}

-- Bits 13 to 15 select the instruction of a quadrant.
unfoldable pub decode_rv64c : ℕ → Decoded → Bool × Decoded
decode_rv64c raw start =
    let dec = add_flag Flag.rvc start in
    let func = get_bits raw 13 3 in
    let quadrant = get_bits raw 0 2 in
    if quadrant == 0
    then decode_quadrant0 func raw dec
    else if quadrant == 1
    then decode_quadrant1 func raw dec
    else if quadrant == 2
    then decode_quadrant2 func raw dec
    else (false, dec)
