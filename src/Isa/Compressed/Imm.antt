-- ===== src/Isa/Compressed/Imm.antt =====
-- src/cpu/isa.cpp: the immediates of the compressed formats. Each starts from `uimm = 0` and adds
-- its fields by `|=`, in the source's order.
use nullrvsim.Prelude.{ℕ, if◌then◌else◌, bit_or, [], ◌∷◌}
use nullrvsim.Prelude.Bits.{shl}
use nullrvsim.Isa.Fields.{get_bits, bit_set, or_onto}

-- `if((raw >> 12) & 1) uimm |= mask`
abbrev pub sign_mask12 : ℕ → ℕ → ℕ → ℕ
sign_mask12 raw mask uimm = if bit_set raw 12 then bit_or uimm mask else uimm

-- C.ADDI4SPN
unfoldable pub imm_addi4spn : ℕ → ℕ
imm_addi4spn raw = or_onto 0 (
    shl (get_bits raw 5 1) 3
    ∷ shl (get_bits raw 6 1) 2
    ∷ shl (get_bits raw 7 4) 6
    ∷ shl (get_bits raw 11 1) 4
    ∷ shl (get_bits raw 12 1) 5
    ∷ [])

-- C.FLD, C.LD, C.FSD, C.SD
unfoldable pub imm_dword : ℕ → ℕ
imm_dword raw = or_onto 0 (shl (get_bits raw 5 2) 6 ∷ shl (get_bits raw 10 3) 3 ∷ [])

-- C.LW, C.SW
unfoldable pub imm_word : ℕ → ℕ
imm_word raw =
    or_onto 0 (shl (get_bits raw 5 1) 6 ∷ shl (get_bits raw 6 1) 2 ∷ shl (get_bits raw 10 3) 3 ∷ [])

-- C.ADDI, C.ADDIW, C.LI, C.ANDI
unfoldable pub imm_ci : ℕ → ℕ
imm_ci raw = sign_mask12 raw 0xffff_ffff_ffff_ffe0 (get_bits raw 2 5)

-- C.ADDI16SP
unfoldable pub imm_addi16sp : ℕ → ℕ
imm_addi16sp raw = sign_mask12 raw 0xffff_ffff_ffff_fe00 (
    or_onto 0 (
      shl (get_bits raw 2 1) 5
      ∷ shl (get_bits raw 3 2) 7
      ∷ shl (get_bits raw 5 1) 6
      ∷ shl (get_bits raw 6 1) 4
      ∷ []))

-- C.LUI
unfoldable pub imm_lui : ℕ → ℕ
imm_lui raw = sign_mask12 raw 0xffff_ffff_fffe_0000 (shl (get_bits raw 2 5) 12)

-- C.SRLI64, C.SRAI64, C.SLLI64
unfoldable pub imm_shamt : ℕ → ℕ
imm_shamt raw = bit_or (get_bits raw 2 5) (shl (get_bits raw 12 1) 5)

-- C.J, without its sign. The predecoder computes the same fields.
abbrev pub imm_cj_low : ℕ → ℕ
imm_cj_low raw = or_onto 0 (
    shl (get_bits raw 2 1) 5
    ∷ shl (get_bits raw 3 3) 1
    ∷ shl (get_bits raw 6 1) 7
    ∷ shl (get_bits raw 7 1) 6
    ∷ shl (get_bits raw 8 1) 10
    ∷ shl (get_bits raw 9 2) 8
    ∷ shl (get_bits raw 11 1) 4
    ∷ [])

unfoldable pub imm_cj : ℕ → ℕ
imm_cj raw = sign_mask12 raw 0xffff_ffff_ffff_f800 (imm_cj_low raw)

-- C.BEQZ, C.BNEZ, without the sign
abbrev pub imm_cb_low : ℕ → ℕ
imm_cb_low raw = or_onto 0 (
    shl (get_bits raw 2 1) 5
    ∷ shl (get_bits raw 3 2) 1
    ∷ shl (get_bits raw 5 2) 6
    ∷ shl (get_bits raw 10 2) 3
    ∷ [])

unfoldable pub imm_cb : ℕ → ℕ
imm_cb raw = sign_mask12 raw 0xffff_ffff_ffff_ff00 (imm_cb_low raw)

-- C.FLDSP, C.LDSP
unfoldable pub imm_ldsp : ℕ → ℕ
imm_ldsp raw =
    or_onto 0 (shl (get_bits raw 2 3) 6 ∷ shl (get_bits raw 5 2) 3 ∷ shl (get_bits raw 12 1) 5 ∷ [])

-- C.LWSP
unfoldable pub imm_lwsp : ℕ → ℕ
imm_lwsp raw =
    or_onto 0 (shl (get_bits raw 2 2) 6 ∷ shl (get_bits raw 4 3) 2 ∷ shl (get_bits raw 12 1) 5 ∷ [])

-- C.FSDSP, C.SDSP
unfoldable pub imm_sdsp : ℕ → ℕ
imm_sdsp raw = or_onto 0 (shl (get_bits raw 7 3) 6 ∷ shl (get_bits raw 10 3) 3 ∷ [])

-- C.SWSP
unfoldable pub imm_swsp : ℕ → ℕ
imm_swsp raw = or_onto 0 (shl (get_bits raw 7 2) 6 ∷ shl (get_bits raw 9 4) 2 ∷ [])
