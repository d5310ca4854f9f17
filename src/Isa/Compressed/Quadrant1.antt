-- ===== src/Isa/Compressed/Quadrant1.antt =====
-- src/cpu/isa.cpp: quadrant 1 of decode_rv64c, immediates, register arithmetic and jumps.
use nullrvsim.Prelude.{ℕ, ◌+◌, bit_or, Bool, true, false, ◌==◌, if◌then◌else◌, ◌&&◌, not}
use nullrvsim.Isa.Codes.OpCode
use nullrvsim.Isa.Codes.IntOp
use nullrvsim.Isa.Codes.BranchOp
use nullrvsim.Isa.Codes.Flag
use nullrvsim.Isa.Decoded.{Decoded, int_op, branch, add_flag}
use nullrvsim.Isa.Fields.{get_bits, bit_set}
use nullrvsim.Isa.Compressed.Imm.{imm_ci, imm_addi16sp, imm_lui, imm_shamt, imm_cj, imm_cb}

abbrev pub rd_full : ℕ → ℕ
rd_full raw = get_bits raw 7 5

-- The register that these forms read and write.
abbrev pub rd_rs1_short : ℕ → ℕ
rd_rs1_short raw = get_bits raw 7 3 + 8

-- An operation on `reg` and an immediate, back into `reg`.
unfoldable pub c_op_imm : ℕ → ℕ → ℕ → ℕ → Decoded → Decoded
c_op_imm opcode op reg value dec =
    add_flag (bit_or Flag.rd_int Flag.s1_int)
      (record dec { opcode = opcode; param = int_op op; rd = reg; rs1 = reg; imm = value })

-- C.LI and C.LUI
unfoldable pub c_set : ℕ → ℕ → Decoded → Decoded
c_set value raw dec =
    add_flag Flag.rd_int (record dec { opcode = OpCode.lui; rd = rd_full raw; imm = value })

-- The registers of C.SUB to C.AND, before the operation is known.
unfoldable pub c_op_regs : ℕ → ℕ → Decoded → Decoded
c_op_regs opcode raw dec =
    add_flag (bit_or (bit_or Flag.rd_int Flag.s1_int) Flag.s2_int) (record dec {
      opcode = opcode;
      rd = rd_rs1_short raw;
      rs1 = rd_rs1_short raw;
      rs2 = get_bits raw 2 3 + 8;
    })

-- C.SUBW and C.ADDW
unfoldable pub c_op32 : ℕ → ℕ → Decoded → Bool × Decoded
c_op32 f2 raw dec =
    let regs = c_op_regs OpCode.op32 raw dec in
    if f2 == 0
    then (true, record regs { param = int_op IntOp.sub })
    else if f2 == 1
    then (true, record regs { param = int_op IntOp.add })
    else (false, regs)

-- C.SUB, C.XOR, C.OR and C.AND
unfoldable pub c_op : ℕ → ℕ → Decoded → Bool × Decoded
c_op f2 raw dec =
    let regs = c_op_regs OpCode.op raw dec in
    if f2 == 0
    then (true, record regs { param = int_op IntOp.sub })
    else if f2 == 1
    then (true, record regs { param = int_op IntOp.xor })
    else if f2 == 2
    then (true, record regs { param = int_op IntOp.or })
    else if f2 == 3
    then (true, record regs { param = int_op IntOp.and })
    else (false, regs)

-- func 4
unfoldable pub c_arith : ℕ → Decoded → Bool × Decoded
c_arith raw dec =
    let f1 = get_bits raw 10 2 in
    let f2 = get_bits raw 5 2 in
    if f1 == 0
    then (true, c_op_imm OpCode.op_imm IntOp.srl (rd_rs1_short raw) (imm_shamt raw) dec)
    else if f1 == 1
    then (true, c_op_imm OpCode.op_imm IntOp.sra (rd_rs1_short raw) (imm_shamt raw) dec)
    else if f1 == 2
    then (true, c_op_imm OpCode.op_imm IntOp.and (rd_rs1_short raw) (imm_ci raw) dec)
    else if bit_set raw 12
    then c_op32 f2 raw dec
    else c_op f2 raw dec

unfoldable pub c_j : ℕ → Decoded → Decoded
c_j raw dec = add_flag Flag.rd_int (record dec { opcode = OpCode.jal; rd = 0; imm = imm_cj raw })

-- C.BEQZ and C.BNEZ
unfoldable pub c_branch : ℕ → ℕ → Decoded → Decoded
c_branch op raw dec = add_flag (bit_or Flag.s1_int Flag.s2_int) (record dec {
  opcode = OpCode.branch;
  param = branch op;
  rs1 = rd_rs1_short raw;
  rs2 = 0;
  imm = imm_cb raw;
})

unfoldable pub decode_quadrant1 : ℕ → ℕ → Decoded → Bool × Decoded
decode_quadrant1 func raw dec =
    if func == 0
    then (true, c_op_imm OpCode.op_imm IntOp.add (rd_full raw) (imm_ci raw) dec)
    else if func == 1
    then (true, c_op_imm OpCode.op_imm32 IntOp.add (rd_full raw) (imm_ci raw) dec)
    else if func == 2 && not (rd_full raw == 0)
    then (true, c_set (imm_ci raw) raw dec)
    else if func == 3 && rd_full raw == 2
    then (true, c_op_imm OpCode.op_imm IntOp.add 2 (imm_addi16sp raw) dec)
    else if func == 3 && not (rd_full raw == 0)
    then (true, c_set (imm_lui raw) raw dec)
    else if func == 4
    then c_arith raw dec
    else if func == 5
    then (true, c_j raw dec)
    else if func == 6
    then (true, c_branch BranchOp.beq raw dec)
    else if func == 7
    then (true, c_branch BranchOp.bne raw dec)
    else (false, dec)
