-- ===== src/Isa/Fields.antt =====
-- src/cpu/isa.cpp: the fields and immediates of the 32-bit instruction formats.
use nullrvsim.Prelude.{ℕ, ◌/◌, ◌%◌, ◌^◌, bit_and, bit_or, Bool, ◌==◌, if◌then◌else◌}
use nullrvsim.Prelude.{List, [], ◌∷◌}
use nullrvsim.Prelude.Bits.{shl}

-- GET_BITS_AT
abbrev pub get_bits : ℕ → ℕ → ℕ → ℕ
get_bits n offset len = n / 2 ^ offset % 2 ^ len

abbrev pub get_opcode : ℕ → ℕ
get_opcode inst = get_bits inst 0 7

abbrev pub get_funct3 : ℕ → ℕ
get_funct3 inst = get_bits inst 12 3

abbrev pub get_funct7 : ℕ → ℕ
get_funct7 inst = get_bits inst 25 7

abbrev pub get_rd : ℕ → ℕ
get_rd inst = get_bits inst 7 5

abbrev pub get_rs1 : ℕ → ℕ
get_rs1 inst = get_bits inst 15 5

abbrev pub get_rs2 : ℕ → ℕ
get_rs2 inst = get_bits inst 20 5

-- A test such as `inst & (1<<31)`: is the bit set?
abbrev pub bit_set : ℕ → ℕ → Bool
bit_set n i = get_bits n i 1 == 1

-- `a = 0; a |= x; a |= y; …`
abbrev pub or_onto : ℕ → List ℕ → ℕ
or_onto a [] = a
or_onto a (x ∷ xs) = or_onto (bit_or a x) xs

-- The 64-bit sign extensions: a mask of ones from a bit on.
abbrev pub sign_mask : ℕ → ℕ → ℕ → ℕ
sign_mask inst mask ret = if bit_set inst 31 then bit_or ret mask else ret

unfoldable pub get_imm_i : ℕ → ℕ
get_imm_i inst = sign_mask inst 0xffff_ffff_ffff_f000 (get_bits inst 20 12)

unfoldable pub get_imm_s : ℕ → ℕ
get_imm_s inst =
    sign_mask inst 0xffff_ffff_ffff_f000 (bit_or (get_bits inst 7 5) (shl (get_bits inst 25 7) 5))

-- The low twelve bits of a branch offset, with bit 12 left to the sign.
abbrev pub imm_b_low : ℕ → ℕ
imm_b_low inst =
    or_onto (shl (get_bits inst 8 4) 1)
      (shl (get_bits inst 25 6) 5 ∷ shl (get_bits inst 7 1) 11 ∷ [])

unfoldable pub get_imm_b : ℕ → ℕ
get_imm_b inst = sign_mask inst 0xffff_ffff_ffff_f000 (imm_b_low inst)

unfoldable pub get_imm_u : ℕ → ℕ
get_imm_u inst = sign_mask inst 0xffff_ffff_0000_0000 (bit_and inst 0xffff_f000)

-- The low twenty bits of a jump offset, with bit 20 left to the sign.
abbrev pub imm_j_low : ℕ → ℕ
imm_j_low inst =
    or_onto (shl (get_bits inst 21 10) 1) (shl (get_bits inst 20 1) 11 ∷ bit_and inst 0xf_f000 ∷ [])

unfoldable pub get_imm_j : ℕ → ℕ
get_imm_j inst = sign_mask inst 0xffff_ffff_fff0_0000 (imm_j_low inst)
