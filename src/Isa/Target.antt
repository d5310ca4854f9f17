-- ===== src/Isa/Target.antt =====
-- The jump targets of the predecoder against the immediates of the decoder.
use nullrvsim.Prelude.{
  ℕ, ◌+◌, ◌*◌, ◌/◌, ◌%◌, ◌^◌, ◌<◌, bit_or, bit_and, ◌≡◌, refl, arith, ◌==◌, if◌then◌else◌, some,
  none,
}
use nullrvsim.Prelude.Bits.{bit_or-field, bit_and-shl, bit_and-mask, low_bits}
use nullrvsim.Isa.Codes.OpCode
use nullrvsim.Isa.Codes.Flag
use nullrvsim.Isa.Decoded.{Decoded, clear, add_flag}
use nullrvsim.Isa.Fields.{get_bits, imm_j_low, get_opcode, get_imm_b, get_imm_j}
use nullrvsim.Isa.Compressed.Imm.{imm_cj_low, imm_cj, imm_cb}
use nullrvsim.Isa.Compressed.{decode_rv64c}
use nullrvsim.Isa.Compressed.Quadrant1.{decode_quadrant1, c_j, c_branch}
use nullrvsim.Isa.Decode.{decode_rv64, decode_by_opcode, decode_jal, decode_branch}
use nullrvsim.Isa.Predecode.{is_b, is_ji, get_b_target, get_j_target}
use nullrvsim.Isa.Immediates.{imm_j_low-eq, get_imm_j-eq}
use nullrvsim.Isa.Immediates.Compressed.{imm_cj_low-eq, imm_cj-eq}

-- `x & 6` reads bits 1 and 2.
bit_and_six : (x : ℕ) → bit_and x 6 ≡ x / 2 % 4 * 2
bit_and_six x = ground (arith, bit_and-shl 1 x 3, bit_and-mask 2 (x / 2))

-- The 32-bit target and the 64-bit immediate of a jump have the same low word.
j_target_full :
    (raw : ℕ)
    → (if get_bits raw 31 1 == 1 then bit_or (imm_j_low raw) 0xfff0_0000 else imm_j_low raw)
      ≡ low_bits (get_imm_j raw) 32
j_target_full raw =
    let low : ℕ = get_bits raw 21 10 * 2 + get_bits raw 20 1 * 2048 + get_bits raw 12 8 * 4096 in
    ground (arith, imm_j_low-eq raw, get_imm_j-eq raw, bit_or-field 20 12 low 0xfff)

j_target_rvc :
    (raw : ℕ)
    → (if get_bits raw 12 1 == 1 then bit_or (imm_cj_low raw) 0xffff_f800 else imm_cj_low raw)
      ≡ low_bits (imm_cj raw) 32
j_target_rvc raw =
    ground (arith, imm_cj_low-eq raw, imm_cj-eq raw, bit_or-field 11 21 (imm_cj_low raw) 0x1f_ffff)

quadrant1-imm_cb :
    (func raw : ℕ) (dec : Decoded)
    → 5 < func
    → func < 8
    → (decode_quadrant1 func raw dec).1.imm ≡ imm_cb raw
unfolding decode_quadrant1 c_branch
quadrant1-imm_cb func raw dec h k = ground arith

quadrant1-imm_cj : (raw : ℕ) (dec : Decoded) → (decode_quadrant1 5 raw dec).1.imm ≡ imm_cj raw
unfolding decode_quadrant1 c_j
quadrant1-imm_cj raw dec = refl

branch-imm :
    (raw : ℕ) (dec : Decoded) → (decode_by_opcode OpCode.branch raw dec).1.imm ≡ get_imm_b raw
unfolding decode_by_opcode decode_branch
branch-imm raw dec = refl

jal-imm : (raw : ℕ) (dec : Decoded) → (decode_by_opcode OpCode.jal raw dec).1.imm ≡ get_imm_j raw
unfolding decode_by_opcode decode_jal
jal-imm raw dec = refl

module _ (raw : ℕ) (dec : Decoded) where
  abbrev rvc_dec : Decoded
  rvc_dec = add_flag Flag.rvc (clear dec)

  abbrev full_dec : Decoded
  full_dec = record (clear dec) { opcode = get_opcode raw }

  imm_of_rvc_branch :
      get_bits raw 0 2 ≡ 1 → 5 < get_bits raw 13 3 → (decode_rv64 raw dec).1.imm ≡ imm_cb raw
  unfolding decode_rv64 decode_rv64c
  imm_of_rvc_branch q f =
      ground (arith, quadrant1-imm_cb (get_bits raw 13 3) raw rvc_dec f (omega arith))

  imm_of_full_branch : get_opcode raw ≡ OpCode.branch → (decode_rv64 raw dec).1.imm ≡ get_imm_b raw
  unfolding decode_rv64
  imm_of_full_branch o = ground (arith, branch-imm raw full_dec)

  imm_of_rvc_jump :
      get_bits raw 0 2 ≡ 1 → get_bits raw 13 3 ≡ 5 → (decode_rv64 raw dec).1.imm ≡ imm_cj raw
  unfolding decode_rv64 decode_rv64c
  imm_of_rvc_jump q f = ground (arith, quadrant1-imm_cj raw rvc_dec)

  imm_of_full_jump : get_opcode raw ≡ OpCode.jal → (decode_rv64 raw dec).1.imm ≡ get_imm_j raw
  unfolding decode_rv64
  imm_of_full_jump o = ground (arith, jal-imm raw full_dec)

  -- pdec_get_B_target succeeds exactly on the instructions that pdec_isB recognises, and there its
  -- target is the low word of the immediate that the decoder finds.
  pub get_b_target-decode_rv64 :
      get_b_target raw ≡ (if is_b raw then some (low_bits (decode_rv64 raw dec).1.imm 32) else none)
  unfolding get_b_target is_b imm_cb get_imm_b
  get_b_target-decode_rv64 =
      ground (arith, bit_and_six (raw / 2 ^ 13), imm_of_rvc_branch, imm_of_full_branch)

  -- pdec_get_J_target succeeds exactly on the instructions that pdec_isJI recognises, and there its
  -- target is the low word of the immediate that the decoder finds.
  pub get_j_target-decode_rv64 :
      get_j_target raw
      ≡ (if is_ji raw then some (low_bits (decode_rv64 raw dec).1.imm 32) else none)
  unfolding get_j_target is_ji
  get_j_target-decode_rv64 =
      ground (arith, j_target_full raw, j_target_rvc raw, imm_of_rvc_jump, imm_of_full_jump)
