-- ===== src/Isa/Bounds.antt =====
-- What the register files rely on: the register numbers of a decoded instruction.
use nullrvsim.Prelude.{ℕ, ◌<◌, arith}
use nullrvsim.Isa.Codes.Flag
use nullrvsim.Isa.Decoded.{Decoded, clear, add_flag}
use nullrvsim.Isa.Fields.{get_bits, get_opcode}
use nullrvsim.Isa.Compressed.{decode_rv64c}
use nullrvsim.Isa.Compressed.Quadrant0.{
  decode_quadrant0, c_addi4spn, c_load_dword, c_lw, c_store_dword, c_sw,
}
use nullrvsim.Isa.Compressed.Quadrant1.{
  decode_quadrant1, c_op_imm, c_set, c_op_regs, c_op32, c_op, c_arith, c_j, c_branch,
}
use nullrvsim.Isa.Compressed.Quadrant2.{
  decode_quadrant2, c_slli, c_load_sp, c_store_sp, c_mv_jr, c_add_jalr,
}
use nullrvsim.Isa.Decode.{
  decode_rv64, decode_by_opcode, decode_u, decode_jal, decode_jalr, decode_branch, decode_load,
  decode_store, decode_op_imm, decode_op, decode_amo, decode_op_fp, decode_fma, decode_misc_mem,
  decode_system,
}

-- The register numbers of a decoded instruction index a file of 32 registers.
pub record IsInFile (d : Decoded) : Type 0 where
  pub rs1_in : d.rs1 < 32
  pub rs2_in : d.rs2 < 32
  pub rs3_in : d.rs3 < 32
  pub rd_in : d.rd < 32

quadrant0-IsInFile :
    (func raw : ℕ) {dec : Decoded} → IsInFile dec → IsInFile (decode_quadrant0 func raw dec).1
unfolding decode_quadrant0 c_addi4spn c_load_dword c_lw c_store_dword c_sw
quadrant0-IsInFile func raw v = ground arith

c_arith-IsInFile : (raw : ℕ) {dec : Decoded} → IsInFile dec → IsInFile (c_arith raw dec).1
unfolding c_arith c_op_imm c_op_regs c_op32 c_op
c_arith-IsInFile raw v = ground arith

quadrant1-IsInFile :
    (func raw : ℕ) {dec : Decoded} → IsInFile dec → IsInFile (decode_quadrant1 func raw dec).1
unfolding decode_quadrant1 c_op_imm c_set c_j c_branch
quadrant1-IsInFile func raw v = ground (arith, c_arith-IsInFile raw v)

quadrant2-IsInFile :
    (func raw : ℕ) {dec : Decoded} → IsInFile dec → IsInFile (decode_quadrant2 func raw dec).1
unfolding decode_quadrant2 c_slli c_load_sp c_store_sp c_mv_jr c_add_jalr
quadrant2-IsInFile func raw v = ground arith

decode_u-IsInFile : (raw : ℕ) {dec : Decoded} → IsInFile dec → IsInFile (decode_u raw dec)
unfolding decode_u
decode_u-IsInFile raw v = ground arith

decode_jal-IsInFile : (raw : ℕ) {dec : Decoded} → IsInFile dec → IsInFile (decode_jal raw dec)
unfolding decode_jal
decode_jal-IsInFile raw v = ground arith

decode_jalr-IsInFile : (raw : ℕ) {dec : Decoded} → IsInFile dec → IsInFile (decode_jalr raw dec)
unfolding decode_jalr
decode_jalr-IsInFile raw v = ground arith

decode_branch-IsInFile : (raw : ℕ) {dec : Decoded} → IsInFile dec → IsInFile (decode_branch raw dec)
unfolding decode_branch
decode_branch-IsInFile raw v = ground arith

decode_load-IsInFile :
    (target raw : ℕ) {dec : Decoded} → IsInFile dec → IsInFile (decode_load target raw dec)
unfolding decode_load
decode_load-IsInFile target raw v = ground arith

decode_store-IsInFile :
    (source raw : ℕ) {dec : Decoded} → IsInFile dec → IsInFile (decode_store source raw dec)
unfolding decode_store
decode_store-IsInFile source raw v = ground arith

decode_op_imm-IsInFile :
    (op raw : ℕ) {dec : Decoded} → IsInFile dec → IsInFile (decode_op_imm op raw dec)
unfolding decode_op_imm
decode_op_imm-IsInFile op raw v = ground arith

decode_op-IsInFile : (raw : ℕ) {dec : Decoded} → IsInFile dec → IsInFile (decode_op raw dec)
unfolding decode_op
decode_op-IsInFile raw v = ground arith

decode_amo-IsInFile : (raw : ℕ) {dec : Decoded} → IsInFile dec → IsInFile (decode_amo raw dec)
unfolding decode_amo
decode_amo-IsInFile raw v = ground arith

decode_op_fp-IsInFile : (raw : ℕ) {dec : Decoded} → IsInFile dec → IsInFile (decode_op_fp raw dec)
unfolding decode_op_fp
decode_op_fp-IsInFile raw v = ground arith

decode_fma-IsInFile : (raw : ℕ) {dec : Decoded} → IsInFile dec → IsInFile (decode_fma raw dec)
unfolding decode_fma
decode_fma-IsInFile raw v = ground arith

decode_misc_mem-IsInFile :
    (raw : ℕ) {dec : Decoded} → IsInFile dec → IsInFile (decode_misc_mem raw dec)
unfolding decode_misc_mem
decode_misc_mem-IsInFile raw v = ground arith

decode_system-IsInFile : (raw : ℕ) {dec : Decoded} → IsInFile dec → IsInFile (decode_system raw dec)
unfolding decode_system
decode_system-IsInFile raw v = ground arith

by_opcode-IsInFile :
    (op raw : ℕ) {dec : Decoded} → IsInFile dec → IsInFile (decode_by_opcode op raw dec).1
unfolding decode_by_opcode
by_opcode-IsInFile op raw v = ground (
  arith,
  decode_u-IsInFile raw v,
  decode_jal-IsInFile raw v,
  decode_jalr-IsInFile raw v,
  decode_branch-IsInFile raw v,
  decode_load-IsInFile Flag.rd_int raw v,
  decode_load-IsInFile Flag.rd_fp raw v,
  decode_store-IsInFile Flag.s2_int raw v,
  decode_store-IsInFile Flag.s2_fp raw v,
  decode_op_imm-IsInFile op raw v,
  decode_op-IsInFile raw v,
  decode_amo-IsInFile raw v,
  decode_op_fp-IsInFile raw v,
  decode_fma-IsInFile raw v,
  decode_misc_mem-IsInFile raw v,
  decode_system-IsInFile raw v,
)

-- Whatever the instruction word, and whether or not it is accepted, the decoder leaves register
-- numbers below 32.
pub decode_rv64-IsInFile : (raw : ℕ) (dec : Decoded) → IsInFile (decode_rv64 raw dec).1
unfolding decode_rv64 decode_rv64c
decode_rv64-IsInFile raw dec =
    let rvc : IsInFile (add_flag Flag.rvc (clear dec)) = omega arith in
    let full : IsInFile (record (clear dec) { opcode = get_opcode raw }) = omega arith in
    ground (
      arith,
      quadrant0-IsInFile (get_bits raw 13 3) raw rvc,
      quadrant1-IsInFile (get_bits raw 13 3) raw rvc,
      quadrant2-IsInFile (get_bits raw 13 3) raw rvc,
      by_opcode-IsInFile (get_opcode raw) raw full,
    )
