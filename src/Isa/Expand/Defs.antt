-- ===== src/Isa/Expand/Defs.antt =====
-- The table of expansions, from the manual. It is `none` for the instructions that the simulator decodes
-- in forms of their own: C.LI (as lui), C.MV (as addi), C.EBREAK, and C.FLD, C.FSD, C.FLDSP
-- and C.FSDSP; for C.LUI and C.SLLI with the target x0, which are hints; and for encodings without an
-- instruction. An encoding that is reserved for its immediate or register alone stands with its neighbours.
use nullrvsim.Prelude.{ℕ, Option, none, some, ◌==◌, if◌then◌else◌, ◌&&◌, not}
use nullrvsim.Isa.Codes.OpCode
use nullrvsim.Isa.Codes.Flag
use nullrvsim.Isa.Decoded.{Decoded, clear, add_flag}
use nullrvsim.Prelude.{Bool}
use nullrvsim.Isa.Fields.{get_bits}
use nullrvsim.Isa.Expand.Forms.{
  full_addi4spn, full_lw, full_ld, full_sw, full_sd, full_addi, full_addiw, full_addi16sp, full_lui,
  full_srli, full_srai, full_andi, full_op, full_j, full_branch, full_slli, full_lwsp, full_ldsp,
  full_jr, full_jalr, full_add, full_swsp, full_sdsp,
}

unfoldable pub expand0 : ℕ → ℕ → Option ℕ
expand0 func raw =
    if func == 0
    then some (full_addi4spn raw)
    else if func == 2
    then some (full_lw raw)
    else if func == 3
    then some (full_ld raw)
    else if func == 6
    then some (full_sw raw)
    else if func == 7
    then some (full_sd raw)
    else none

-- C.SRLI, C.SRAI, C.ANDI, then C.SUBW and C.ADDW, then C.SUB, C.XOR, C.OR and C.AND
unfoldable pub expand_arith : ℕ → Option ℕ
expand_arith raw =
    let f1 = get_bits raw 10 2 in
    let f2 = get_bits raw 5 2 in
    let wide = get_bits raw 12 1 == 1 in
    if f1 == 0
    then some (full_srli raw)
    else if f1 == 1
    then some (full_srai raw)
    else if f1 == 2
    then some (full_andi raw)
    else if wide && f2 == 0
    then some (full_op OpCode.op32 0 32 raw)
    else if wide && f2 == 1
    then some (full_op OpCode.op32 0 0 raw)
    else if wide
    then none
    else if f2 == 0
    then some (full_op OpCode.op 0 32 raw)
    else if f2 == 1
    then some (full_op OpCode.op 4 0 raw)
    else if f2 == 2
    then some (full_op OpCode.op 6 0 raw)
    else some (full_op OpCode.op 7 0 raw)

unfoldable pub expand1 : ℕ → ℕ → Option ℕ
expand1 func raw =
    let reg = get_bits raw 7 5 in
    if func == 0
    then some (full_addi raw)
    else if func == 1
    then some (full_addiw raw)
    else if func == 3 && reg == 2
    then some (full_addi16sp raw)
    else if func == 3 && not (reg == 0)
    then some (full_lui raw)
    else if func == 4
    then expand_arith raw
    else if func == 5
    then some (full_j raw)
    else if func == 6
    then some (full_branch 0 raw)
    else if func == 7
    then some (full_branch 1 raw)
    else none

unfoldable pub expand2 : ℕ → ℕ → Option ℕ
expand2 func raw =
    let reg = get_bits raw 7 5 in
    let src = get_bits raw 2 5 in
    let high = get_bits raw 12 1 == 1 in
    if func == 0 && not (reg == 0)
    then some (full_slli raw)
    else if func == 2
    then some (full_lwsp raw)
    else if func == 3
    then some (full_ldsp raw)
    else if func == 4 && not high && not (src == 0)
    then none
    else if func == 4 && not high
    then some (full_jr raw)
    else if func == 4 && not (src == 0)
    then some (full_add raw)
    else if func == 4 && not (reg == 0)
    then some (full_jalr raw)
    else if func == 6
    then some (full_swsp raw)
    else if func == 7
    then some (full_sdsp raw)
    else none

unfoldable pub expand : ℕ → Option ℕ
expand raw =
    let quadrant = get_bits raw 0 2 in
    let func = get_bits raw 13 3 in
    if quadrant == 0
    then expand0 func raw
    else if quadrant == 1
    then expand1 func raw
    else if quadrant == 2
    then expand2 func raw
    else none

-- A decoding, marked as that of a compressed instruction.
abbrev pub as_rvc : Bool × Decoded → Bool × Decoded
as_rvc r = (r.0, add_flag Flag.rvc r.1)

-- What the decoders of the quadrants start from.
abbrev pub rvc_start : Decoded → Decoded
rvc_start dec = add_flag Flag.rvc (clear dec)
