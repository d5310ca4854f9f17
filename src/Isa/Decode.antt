-- ===== src/Isa/Decode.antt =====
-- src/cpu/isa.cpp: decode_rv64, one helper for each branch of its chain on the opcode. A decoder
-- returns its Boolean beside the instruction that it has written.
use nullrvsim.Prelude.{ℕ, ◌/◌, ◌^◌, bit_or, Bool, true, false, ◌==◌, if◌then◌else◌}
use nullrvsim.Prelude.{◌||◌, ◌&&◌, not}
use nullrvsim.Prelude.Bits.{shl, low_bits}
use nullrvsim.Isa.Codes.OpCode
use nullrvsim.Isa.Codes.IntOp
use nullrvsim.Isa.Codes.AmoOp
use nullrvsim.Isa.Codes.FpOp
use nullrvsim.Isa.Codes.Flag
use nullrvsim.Isa.Decoded.{Decoded, load_store, branch, int_op, amo, fp, csr, add_flag, clear}
use nullrvsim.Isa.Fields.{
  get_bits, get_opcode, get_funct3, get_funct7, get_rd, get_rs1, get_rs2, bit_set, get_imm_i,
  get_imm_s, get_imm_b, get_imm_u, get_imm_j,
}
use nullrvsim.Isa.Compressed.{decode_rv64c}

-- isRVC
abbrev pub is_rvc : ℕ → Bool
is_rvc inst = not (get_bits inst 0 2 == 3)

-- lui, auipc
unfoldable pub decode_u : ℕ → Decoded → Decoded
decode_u raw dec = add_flag Flag.rd_int (record dec { rd = get_rd raw; imm = get_imm_u raw })

unfoldable pub decode_jal : ℕ → Decoded → Decoded
decode_jal raw dec = add_flag Flag.rd_int (record dec { rd = get_rd raw; imm = get_imm_j raw })

-- What every branch over parse_inst_I copies.
abbrev pub take_i : ℕ → Decoded → Decoded
take_i raw dec = record dec { rs1 = get_rs1 raw; rd = get_rd raw; imm = get_imm_i raw }

unfoldable pub decode_jalr : ℕ → Decoded → Decoded
decode_jalr raw dec = add_flag (bit_or Flag.rd_int Flag.s1_int) (take_i raw dec)

unfoldable pub decode_branch : ℕ → Decoded → Decoded
decode_branch raw dec = add_flag (bit_or Flag.s1_int Flag.s2_int) (record dec {
  rs1 = get_rs1 raw;
  rs2 = get_rs2 raw;
  imm = get_imm_b raw;
  param = branch (get_funct3 raw);
})

-- load, loadfp: `target` is the flag of the register file that is written.
unfoldable pub decode_load : ℕ → ℕ → Decoded → Decoded
decode_load target raw dec =
    add_flag (bit_or target Flag.s1_int)
      (record (take_i raw dec) { param = load_store (get_funct3 raw) })

-- store, storefp: `source` is the flag of the register file that is stored.
unfoldable pub decode_store : ℕ → ℕ → Decoded → Decoded
decode_store source raw dec = add_flag (bit_or Flag.s1_int source) (record dec {
  rs1 = get_rs1 raw;
  rs2 = get_rs2 raw;
  imm = get_imm_s raw;
  param = load_store (get_funct3 raw);
})

-- The immediate of opimm and opimm32: shifts keep six or five bits of it.
unfoldable pub op_imm_value : ℕ → ℕ → ℕ
op_imm_value op raw =
    let funct3 = get_funct3 raw in
    let imm = get_imm_i raw in
    if funct3 == IntOp.sll || funct3 == IntOp.srl
    then (if op == OpCode.op_imm then low_bits imm 6 else low_bits imm 5)
    else imm

-- The operation of opimm and opimm32: bit 30 makes a right shift arithmetic.
unfoldable pub op_imm_op : ℕ → ℕ
op_imm_op raw = if get_funct3 raw == IntOp.srl && bit_set raw 30 then IntOp.sra else get_funct3 raw

-- opimm, opimm32
unfoldable pub decode_op_imm : ℕ → ℕ → Decoded → Decoded
decode_op_imm op raw dec =
    add_flag (bit_or Flag.rd_int Flag.s1_int)
      (record (take_i raw dec) { imm = op_imm_value op raw; param = int_op (op_imm_op raw) })

-- What every branch over parse_inst_R copies.
abbrev pub take_r : ℕ → Decoded → Decoded
take_r raw dec = record dec { rs1 = get_rs1 raw; rs2 = get_rs2 raw; rd = get_rd raw }

-- op, op32
unfoldable pub decode_op : ℕ → Decoded → Decoded
decode_op raw dec =
    add_flag (bit_or (bit_or Flag.rd_int Flag.s1_int) Flag.s2_int) (record (take_r raw dec) {
      param = int_op (bit_or (get_funct3 raw) (shl (get_funct7 raw) 3));
    })

unfoldable pub decode_amo : ℕ → Decoded → Decoded
decode_amo raw dec =
    let op = get_funct7 raw / 2 ^ 2 in
    let parsed =
      add_flag (bit_or Flag.rd_int Flag.s1_int)
        (record (take_r raw dec) { param = amo op (get_funct3 raw) }) in
    if op == AmoOp.lr then parsed else add_flag Flag.s2_int parsed

-- rv64_fpop_is_i_rd, rv64_fpop_is_i_s1, rv64_fpop_has_s2
unfoldable pub fp_op_is_i_rd : ℕ → Bool
fp_op_is_i_rd op = op == FpOp.cmp || op == FpOp.cvt_f2i || op == FpOp.mv_f2i

unfoldable pub fp_op_is_i_s1 : ℕ → Bool
fp_op_is_i_s1 op = op == FpOp.cvt_i2f || op == FpOp.mv_i2f

unfoldable pub fp_op_has_s2 : ℕ → Bool
fp_op_has_s2 op =
    op == FpOp.add
    || op == FpOp.sub
    || op == FpOp.mul
    || op == FpOp.div
    || op == FpOp.sgnj
    || op == FpOp.min
    || op == FpOp.cmp

unfoldable pub decode_op_fp : ℕ → Decoded → Decoded
unfolding fp_op_is_i_rd fp_op_is_i_s1 fp_op_has_s2
decode_op_fp raw dec =
    let op = get_funct7 raw / 2 ^ 2 in
    let parsed = record (take_r raw dec) {
      param = fp op (low_bits (get_funct7 raw) 2) (get_rs2 raw) (get_funct3 raw);
    } in
    add_flag (if fp_op_has_s2 op then Flag.s2_fp else 0) (
      add_flag (if fp_op_is_i_s1 op then Flag.s1_int else Flag.s1_fp)
        (add_flag (if fp_op_is_i_rd op then Flag.rd_int else Flag.rd_fp) parsed))

-- madd, msub, nmsub, nmadd: only the width and funct3 of the parameter are written.
unfoldable pub decode_fma : ℕ → Decoded → Decoded
decode_fma raw dec =
    add_flag (bit_or (bit_or (bit_or Flag.rd_fp Flag.s1_fp) Flag.s2_fp) Flag.s3_fp)
      (record (take_r raw dec) {
        rs3 = get_funct7 raw / 2 ^ 2;
        param = fp 0 (low_bits (get_funct7 raw) 2) 0 (get_funct3 raw);
      })

unfoldable pub decode_misc_mem : ℕ → Decoded → Decoded
decode_misc_mem raw dec =
    let parsed = add_flag Flag.unique (take_i raw dec) in
    if get_funct3 raw == 0
    then (if raw == 0x8330000
        then add_flag Flag.fencetso parsed
        else if raw == 0x0100000f
        then add_flag Flag.pause parsed
        else add_flag Flag.fence parsed)
    else if get_funct3 raw == 1
    then add_flag Flag.fencei parsed
    else add_flag (bit_or Flag.rd_int Flag.s1_int) parsed

unfoldable pub decode_system : ℕ → Decoded → Decoded
decode_system raw dec =
    let parsed =
      add_flag Flag.unique
        (record (take_i raw dec) { param = csr (get_funct3 raw) (low_bits (get_imm_i raw) 12) }) in
    if raw == 0x00000073
    then add_flag Flag.ecall parsed
    else if raw == 0x00100073
    then add_flag Flag.ebreak parsed
    else add_flag (bit_or Flag.rd_int Flag.s1_int) parsed

-- The chain of decode_rv64 on the opcode, which `dec` holds already.
unfoldable pub decode_by_opcode : ℕ → ℕ → Decoded → Bool × Decoded
decode_by_opcode op raw dec =
    if op == OpCode.lui || op == OpCode.auipc
    then (true, decode_u raw dec)
    else if op == OpCode.jal
    then (true, decode_jal raw dec)
    else if op == OpCode.jalr
    then (true, decode_jalr raw dec)
    else if op == OpCode.branch
    then (true, decode_branch raw dec)
    else if op == OpCode.load
    then (true, decode_load Flag.rd_int raw dec)
    else if op == OpCode.load_fp
    then (true, decode_load Flag.rd_fp raw dec)
    else if op == OpCode.store
    then (true, decode_store Flag.s2_int raw dec)
    else if op == OpCode.store_fp
    then (true, decode_store Flag.s2_fp raw dec)
    else if op == OpCode.op_imm || op == OpCode.op_imm32
    then (true, decode_op_imm op raw dec)
    else if op == OpCode.op || op == OpCode.op32
    then (true, decode_op raw dec)
    else if op == OpCode.amo
    then (true, decode_amo raw dec)
    else if op == OpCode.op_fp
    then (true, decode_op_fp raw dec)
    else if op == OpCode.madd || op == OpCode.msub || op == OpCode.nmsub || op == OpCode.nmadd
    then (true, decode_fma raw dec)
    else if op == OpCode.misc_mem
    then (true, decode_misc_mem raw dec)
    else if op == OpCode.system
    then (true, decode_system raw dec)
    else (false, dec)

unfoldable pub decode_rv64 : ℕ → Decoded → Bool × Decoded
decode_rv64 raw dec =
    if is_rvc raw
    then decode_rv64c raw (clear dec)
    else decode_by_opcode (get_opcode raw) raw (record (clear dec) { opcode = get_opcode raw })
