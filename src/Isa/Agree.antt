-- ===== src/Isa/Agree.antt =====
-- The predecoder against the decoder: what the fetch unit believes of a raw instruction is what
-- the decode stage finds in it.
use nullrvsim.Prelude.{ℕ, ◌<◌, ◌≡◌, ◌≢◌, ◌↔◌, refl, true, arith}
use nullrvsim.Isa.Codes.OpCode
use nullrvsim.Isa.Codes.Flag
use nullrvsim.Isa.Decoded.{Decoded, clear, add_flag}
use nullrvsim.Isa.Fields.{get_bits, get_opcode}
use nullrvsim.Isa.Compressed.{decode_rv64c}
use nullrvsim.Isa.Compressed.Quadrant0.{
  decode_quadrant0, c_addi4spn, c_load_dword, c_lw, c_store_dword, c_sw,
}
use nullrvsim.Isa.Compressed.Quadrant1.{
  decode_quadrant1, c_op_imm, c_set, c_op_regs, c_op32, c_op, c_arith, c_j, c_branch,
}
use nullrvsim.Isa.Compressed.Quadrant2.{
  decode_quadrant2, c_slli, c_load_sp, c_store_sp, c_mv_jr, c_add_jalr,
}
use nullrvsim.Isa.Decode.{
  decode_rv64, decode_by_opcode, decode_u, decode_jal, decode_jalr, decode_branch, decode_load,
  decode_store, decode_op_imm, decode_op, decode_amo, decode_op_fp, decode_fma, decode_misc_mem,
  decode_system,
}
use nullrvsim.Isa.Predecode.{is_b, is_ji}

-- The instruction was decoded, to the given opcode.
abbrev pub DecodesTo : ℕ → ℕ → Decoded → Type 0
DecodesTo op raw dec = ((decode_rv64 raw dec).0 ≡ true) × ((decode_rv64 raw dec).1.opcode ≡ op)

quadrant0-opcode :
    (func raw : ℕ) (dec : Decoded)
    → (decode_quadrant0 func raw dec).0 ≡ true
    → ((decode_quadrant0 func raw dec).1.opcode ≢ OpCode.branch)
      × ((decode_quadrant0 func raw dec).1.opcode ≢ OpCode.jal)
unfolding decode_quadrant0 c_addi4spn c_load_dword c_lw c_store_dword c_sw
quadrant0-opcode func raw dec = ground arith

quadrant1-branch :
    (func raw : ℕ) (dec : Decoded)
    → func < 8
    → (((decode_quadrant1 func raw dec).0 ≡ true)
        × ((decode_quadrant1 func raw dec).1.opcode ≡ OpCode.branch))
      ↔ (5 < func)
unfolding decode_quadrant1 c_op_imm c_set c_op_regs c_op32 c_op c_arith c_j c_branch
quadrant1-branch func raw dec h = (ground arith, ground arith)

quadrant1-jal :
    (func raw : ℕ) (dec : Decoded)
    → (((decode_quadrant1 func raw dec).0 ≡ true)
        × ((decode_quadrant1 func raw dec).1.opcode ≡ OpCode.jal))
      ↔ (func ≡ 5)
unfolding decode_quadrant1 c_op_imm c_set c_op_regs c_op32 c_op c_arith c_j c_branch
quadrant1-jal func raw dec = (ground arith, ground arith)

quadrant2-opcode :
    (func raw : ℕ) (dec : Decoded)
    → (decode_quadrant2 func raw dec).0 ≡ true
    → ((decode_quadrant2 func raw dec).1.opcode ≢ OpCode.branch)
      × ((decode_quadrant2 func raw dec).1.opcode ≢ OpCode.jal)
unfolding decode_quadrant2 c_slli c_load_sp c_store_sp c_mv_jr c_add_jalr
quadrant2-opcode func raw dec = ground arith

-- Every branch of the chain keeps the opcode that was stored before it.
opcode-decode_by_opcode :
    (op raw : ℕ) (dec : Decoded) → (decode_by_opcode op raw dec).1.opcode ≡ dec.opcode
unfolding decode_by_opcode decode_u decode_jal decode_jalr decode_branch decode_load decode_store
    decode_op_imm decode_op decode_amo decode_op_fp decode_fma decode_misc_mem decode_system
opcode-decode_by_opcode op raw dec = ground arith

decode_by_opcode-branch :
    (raw : ℕ) (dec : Decoded)
    → decode_by_opcode OpCode.branch raw dec ≡ (true, decode_branch raw dec)
unfolding decode_by_opcode
decode_by_opcode-branch raw dec = refl

decode_by_opcode-jal :
    (raw : ℕ) (dec : Decoded) → decode_by_opcode OpCode.jal raw dec ≡ (true, decode_jal raw dec)
unfolding decode_by_opcode
decode_by_opcode-jal raw dec = refl

module _ (raw : ℕ) (dec : Decoded) where
  abbrev rvc_dec : Decoded
  rvc_dec = add_flag Flag.rvc (clear dec)

  abbrev func : ℕ
  func = get_bits raw 13 3

  abbrev full_dec : Decoded
  full_dec = record (clear dec) { opcode = get_opcode raw }

  -- The predecoder calls an instruction a branch exactly when the decoder accepts it and gives it
  -- the branch opcode, for compressed and full instructions alike.
  pub is_b-decode_rv64 : (is_b raw ≡ true) ↔ DecodesTo OpCode.branch raw dec
  unfolding is_b decode_rv64 decode_rv64c
  is_b-decode_rv64 = (
    ground (
      arith,
      (quadrant1-branch func raw rvc_dec (omega arith)).1,
      opcode-decode_by_opcode (get_opcode raw) raw full_dec,
      decode_by_opcode-branch raw full_dec,
    ),
    ground (
      arith,
      quadrant0-opcode func raw rvc_dec,
      quadrant1-branch func raw rvc_dec (omega arith),
      quadrant2-opcode func raw rvc_dec,
      opcode-decode_by_opcode (get_opcode raw) raw full_dec,
    ),
  )

  -- The predecoder calls an instruction a direct jump exactly when the decoder accepts it and gives
  -- it the opcode jal.
  pub is_ji-decode_rv64 : (is_ji raw ≡ true) ↔ DecodesTo OpCode.jal raw dec
  unfolding is_ji decode_rv64 decode_rv64c
  is_ji-decode_rv64 = (
    ground (
      arith,
      (quadrant1-jal func raw rvc_dec).1,
      opcode-decode_by_opcode (get_opcode raw) raw full_dec,
      decode_by_opcode-jal raw full_dec,
    ),
    ground (
      arith,
      quadrant0-opcode func raw rvc_dec,
      quadrant1-jal func raw rvc_dec,
      quadrant2-opcode func raw rvc_dec,
      opcode-decode_by_opcode (get_opcode raw) raw full_dec,
    ),
  )
