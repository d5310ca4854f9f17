-- ===== src/Isa/Compressed/Quadrant2.antt =====
-- src/cpu/isa.cpp: quadrant 2 of decode_rv64c, stack accesses, moves and register jumps.
use nullrvsim.Prelude.{ℕ, bit_or, Bool, true, false, ◌==◌, if◌then◌else◌, ◌&&◌, not}
use nullrvsim.Isa.Codes.OpCode
use nullrvsim.Isa.Codes.IntOp
use nullrvsim.Isa.Codes.LsWidth
use nullrvsim.Isa.Codes.Flag
use nullrvsim.Isa.Decoded.{Decoded, load_store, int_op, add_flag}
use nullrvsim.Isa.Fields.{get_bits, bit_set}
use nullrvsim.Isa.Compressed.Imm.{imm_shamt, imm_ldsp, imm_lwsp, imm_sdsp, imm_swsp}

-- Registers of five bits: the target, and the source of stores and moves.
abbrev pub reg7 : ℕ → ℕ
reg7 raw = get_bits raw 7 5

abbrev pub reg2 : ℕ → ℕ
reg2 raw = get_bits raw 2 5

unfoldable pub c_slli : ℕ → Decoded → Decoded
c_slli raw dec = add_flag (bit_or Flag.rd_int Flag.s1_int) (record dec {
  opcode = OpCode.op_imm;
  param = int_op IntOp.sll;
  rd = reg7 raw;
  rs1 = reg7 raw;
  imm = imm_shamt raw;
})

-- C.FLDSP, C.LWSP and C.LDSP: a load from the stack pointer.
unfoldable pub c_load_sp : ℕ → ℕ → ℕ → ℕ → Decoded → Decoded
c_load_sp opcode width offset raw dec =
    add_flag (bit_or Flag.rd_int Flag.s1_int) (record dec {
      opcode = opcode;
      param = load_store width;
      rd = reg7 raw;
      rs1 = 2;
      imm = offset;
    })

-- C.FSDSP, C.SWSP and C.SDSP: a store to the stack pointer.
unfoldable pub c_store_sp : ℕ → ℕ → ℕ → ℕ → Decoded → Decoded
c_store_sp opcode width offset raw dec = add_flag (bit_or Flag.s1_int Flag.s2_int) (record dec {
  opcode = opcode;
  param = load_store width;
  rs2 = reg2 raw;
  rs1 = 2;
  imm = offset;
})

-- func 4 with bit 12 clear: C.MV, which becomes an addition of 0, and C.JR
unfoldable pub c_mv_jr : ℕ → Decoded → Decoded
c_mv_jr raw dec =
    let flagged = add_flag (bit_or Flag.rd_int Flag.s1_int) dec in
    if not (reg2 raw == 0)
    then record flagged {
      opcode = OpCode.op_imm;
      param = int_op IntOp.add;
      rd = reg7 raw;
      rs1 = reg2 raw;
      imm = 0;
    }
    else record flagged { opcode = OpCode.jalr; rs1 = reg7 raw; rd = 0; imm = 0 }

-- func 4 with bit 12 set: C.ADD, C.JALR and C.EBREAK
unfoldable pub c_add_jalr : ℕ → Decoded → Decoded
c_add_jalr raw dec =
    if not (reg2 raw == 0)
    then add_flag (bit_or (bit_or Flag.rd_int Flag.s1_int) Flag.s2_int) (record dec {
      opcode = OpCode.op;
      param = int_op IntOp.add;
      rd = reg7 raw;
      rs1 = reg7 raw;
      rs2 = reg2 raw;
    })
    else if not (reg7 raw == 0)
    then add_flag (bit_or Flag.rd_int Flag.s1_int)
        (record dec { opcode = OpCode.jalr; rs1 = reg7 raw; rd = 1; imm = 0 })
    else add_flag (bit_or Flag.ebreak Flag.unique) (record dec { opcode = OpCode.system })

unfoldable pub decode_quadrant2 : ℕ → ℕ → Decoded → Bool × Decoded
decode_quadrant2 func raw dec =
    if func == 0 && not (reg7 raw == 0)
    then (true, c_slli raw dec)
    else if func == 1
    then (true, c_load_sp OpCode.load_fp LsWidth.dword (imm_ldsp raw) raw dec)
    else if func == 2
    then (true, c_load_sp OpCode.load LsWidth.word (imm_lwsp raw) raw dec)
    else if func == 3
    then (true, c_load_sp OpCode.load LsWidth.dword (imm_ldsp raw) raw dec)
    else if func == 4
    then (true, if bit_set raw 12 then c_add_jalr raw dec else c_mv_jr raw dec)
    else if func == 5
    then (true, c_store_sp OpCode.store_fp LsWidth.dword (imm_sdsp raw) raw dec)
    else if func == 6
    then (true, c_store_sp OpCode.store LsWidth.word (imm_swsp raw) raw dec)
    else if func == 7
    then (true, c_store_sp OpCode.store LsWidth.dword (imm_sdsp raw) raw dec)
    else (false, dec)
