-- ===== src/Isa/Immediates.antt =====
-- The immediates of src/cpu/isa.cpp as numbers: every `|` of fields is a sum, and every mask of
-- ones is the sign extension of the RISC-V manual. The children are about the compressed formats.
pub mod Compressed
use nullrvsim.Prelude.{ℕ, ◌+◌, ◌-◌, ◌*◌, ◌/◌, ◌^◌, ◌<◌, bit_and, ◌≡◌, ltb, if◌then◌else◌, arith}
use nullrvsim.Prelude.Bits.{bit_or-field, bit_and-shl, bit_and-mask}
use nullrvsim.Isa.Fields.{get_bits, get_imm_i, get_imm_s, get_imm_b, get_imm_u, get_imm_j}
use nullrvsim.Isa.Fields.{imm_b_low, imm_j_low}
use nullrvsim.Isa.Sext.{sext}

pub get_imm_i-eq : (raw : ℕ) → get_imm_i raw ≡ sext 12 (get_bits raw 20 12)
unfolding get_imm_i
get_imm_i-eq raw = ground (arith, bit_or-field 12 52 (get_bits raw 20 12) 0xf_ffff_ffff_ffff)

pub get_imm_s-eq : (raw : ℕ) → get_imm_s raw ≡ sext 12 (get_bits raw 7 5 + get_bits raw 25 7 * 32)
unfolding get_imm_s
get_imm_s-eq raw = ground (
  arith,
  bit_or-field 5 7 (get_bits raw 7 5) (get_bits raw 25 7),
  bit_or-field 12 52 (get_bits raw 7 5 + get_bits raw 25 7 * 32) 0xf_ffff_ffff_ffff,
)

pub imm_b_low-eq :
    (raw : ℕ)
    → imm_b_low raw ≡ get_bits raw 8 4 * 2 + get_bits raw 25 6 * 32 + get_bits raw 7 1 * 2048
imm_b_low-eq raw = ground (
  arith,
  bit_or-field 5 6 (get_bits raw 8 4 * 2) (get_bits raw 25 6),
  bit_or-field 11 1 (get_bits raw 8 4 * 2 + get_bits raw 25 6 * 32) (get_bits raw 7 1),
)

-- Bit 12 of a branch offset stands at bit 31.
pub get_imm_b-eq :
    (raw : ℕ)
    → get_imm_b raw
      ≡ sext 13 (
          get_bits raw 8 4 * 2
          + get_bits raw 25 6 * 32
          + get_bits raw 7 1 * 2048
          + get_bits raw 31 1 * 4096)
unfolding get_imm_b
get_imm_b-eq raw =
    let low : ℕ = get_bits raw 8 4 * 2 + get_bits raw 25 6 * 32 + get_bits raw 7 1 * 2048 in
    ground (arith, imm_b_low-eq raw, bit_or-field 12 52 low 0xf_ffff_ffff_ffff)

pub get_imm_u-eq : (raw : ℕ) → raw < 2 ^ 32 → get_imm_u raw ≡ sext 32 (get_bits raw 12 20 * 4096)
unfolding get_imm_u
get_imm_u-eq raw h = ground (
  arith,
  bit_and-shl 12 raw 0xf_ffff,
  bit_and-mask 20 (raw / 2 ^ 12),
  bit_or-field 32 32 (get_bits raw 12 20 * 4096) 0xffff_ffff,
)

pub imm_j_low-eq :
    (raw : ℕ)
    → imm_j_low raw ≡ get_bits raw 21 10 * 2 + get_bits raw 20 1 * 2048 + get_bits raw 12 8 * 4096
imm_j_low-eq raw = ground (
  arith,
  bit_or-field 11 1 (get_bits raw 21 10 * 2) (get_bits raw 20 1),
  bit_and-shl 12 raw 0xff,
  bit_and-mask 8 (raw / 2 ^ 12),
  bit_or-field 12 8 (get_bits raw 21 10 * 2 + get_bits raw 20 1 * 2048) (get_bits raw 12 8),
)

-- Bit 20 of a jump offset stands at bit 31.
pub get_imm_j-eq :
    (raw : ℕ)
    → get_imm_j raw
      ≡ sext 21 (
          get_bits raw 21 10 * 2
          + get_bits raw 20 1 * 2048
          + get_bits raw 12 8 * 4096
          + get_bits raw 31 1 * 0x10_0000)
unfolding get_imm_j
get_imm_j-eq raw =
    let low : ℕ = get_bits raw 21 10 * 2 + get_bits raw 20 1 * 2048 + get_bits raw 12 8 * 4096 in
    ground (arith, imm_j_low-eq raw, bit_or-field 20 44 low 0xfff_ffff_ffff)
