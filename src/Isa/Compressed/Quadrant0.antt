-- ===== src/Isa/Compressed/Quadrant0.antt =====
-- src/cpu/isa.cpp: quadrant 0 of decode_rv64c, loads and stores over the eight common registers.
use nullrvsim.Prelude.{ℕ, ◌+◌, bit_or, Bool, true, false, ◌==◌, if◌then◌else◌}
use nullrvsim.Isa.Codes.OpCode
use nullrvsim.Isa.Codes.IntOp
use nullrvsim.Isa.Codes.LsWidth
use nullrvsim.Isa.Codes.Flag
use nullrvsim.Isa.Decoded.{Decoded, load_store, int_op, add_flag}
use nullrvsim.Isa.Fields.{get_bits}
use nullrvsim.Isa.Compressed.Imm.{imm_addi4spn, imm_dword, imm_word}

-- The registers of three bits: x8 to x15.
abbrev pub rd_short : ℕ → ℕ
rd_short raw = get_bits raw 2 3 + 8

abbrev pub rs1_short : ℕ → ℕ
rs1_short raw = get_bits raw 7 3 + 8

unfoldable pub c_addi4spn : ℕ → Decoded → Decoded
c_addi4spn raw dec = add_flag (bit_or Flag.rd_int Flag.s1_int) (record dec {
  opcode = OpCode.op_imm;
  rd = rd_short raw;
  rs1 = 2;
  imm = imm_addi4spn raw;
  param = int_op IntOp.add;
})

-- C.FLD (opcode loadfp) and C.LD: all else is the same in the source, the flags too.
unfoldable pub c_load_dword : ℕ → ℕ → Decoded → Decoded
c_load_dword opcode raw dec = add_flag (bit_or Flag.rd_int Flag.s1_int) (record dec {
  opcode = opcode;
  rd = rd_short raw;
  rs1 = rs1_short raw;
  imm = imm_dword raw;
  param = load_store LsWidth.dword;
})

unfoldable pub c_lw : ℕ → Decoded → Decoded
c_lw raw dec = add_flag (bit_or Flag.rd_int Flag.s1_int) (record dec {
  opcode = OpCode.load;
  rd = rd_short raw;
  rs1 = rs1_short raw;
  imm = imm_word raw;
  param = load_store LsWidth.word;
})

-- C.FSD and C.SD have one and the same body, with the opcode store.
unfoldable pub c_store_dword : ℕ → Decoded → Decoded
c_store_dword raw dec = add_flag (bit_or Flag.s1_int Flag.s2_int) (record dec {
  opcode = OpCode.store;
  rs2 = rd_short raw;
  rs1 = rs1_short raw;
  imm = imm_dword raw;
  param = load_store LsWidth.dword;
})

unfoldable pub c_sw : ℕ → Decoded → Decoded
c_sw raw dec = add_flag (bit_or Flag.s1_int Flag.s2_int) (record dec {
  opcode = OpCode.store;
  rs2 = rd_short raw;
  rs1 = rs1_short raw;
  imm = imm_word raw;
  param = load_store LsWidth.word;
})

unfoldable pub decode_quadrant0 : ℕ → ℕ → Decoded → Bool × Decoded
decode_quadrant0 func raw dec =
    if func == 0
    then (true, c_addi4spn raw dec)
    else if func == 1
    then (true, c_load_dword OpCode.load_fp raw dec)
    else if func == 2
    then (true, c_lw raw dec)
    else if func == 3
    then (true, c_load_dword OpCode.load raw dec)
    else if func == 5
    then (true, c_store_dword raw dec)
    else if func == 6
    then (true, c_sw raw dec)
    else if func == 7
    then (true, c_store_dword raw dec)
    else (false, dec)
