-- ===== src/Isa/Expand/Forms.antt =====
-- The full-size instructions that the compressed ones stand for, from the RISC-V manual.
use nullrvsim.Prelude.{ℕ, ◌+◌, ◌-◌, ◌*◌, ◌^◌, ltb, if◌then◌else◌}
use nullrvsim.Isa.Codes.OpCode
use nullrvsim.Isa.Fields.{get_bits}
use nullrvsim.Isa.Encode.{
  IForm, RForm, SForm, encode_i, encode_r, encode_s, encode_b, encode_u, encode_j,
}

-- The `w`-bit number `v`, sign-extended to `n` bits.
abbrev pub widen : ℕ → ℕ → ℕ → ℕ
widen n w v = if ltb v (2 ^ (w - 1)) then v else v + (2 ^ n - 2 ^ w)

-- The registers x8 to x15, from three bits.
abbrev pub short : ℕ → ℕ → ℕ
short raw offset = get_bits raw offset 3 + 8

-- offset[5:3] and offset[7:6] of the doubleword accesses
abbrev pub off_dword : ℕ → ℕ
off_dword raw = get_bits raw 5 2 * 64 + get_bits raw 10 3 * 8

abbrev pub off_word : ℕ → ℕ
off_word raw = get_bits raw 5 1 * 64 + get_bits raw 6 1 * 4 + get_bits raw 10 3 * 8

abbrev pub addi4spn_imm : ℕ → ℕ
addi4spn_imm raw =
    get_bits raw 5 1 * 8
    + get_bits raw 6 1 * 4
    + get_bits raw 7 4 * 64
    + get_bits raw 11 1 * 16
    + get_bits raw 12 1 * 32

-- The six-bit immediate of the CI format.
abbrev pub imm6 : ℕ → ℕ
imm6 raw = get_bits raw 2 5 + get_bits raw 12 1 * 32

abbrev pub sp_imm : ℕ → ℕ
sp_imm raw =
    get_bits raw 2 1 * 32
    + get_bits raw 3 2 * 128
    + get_bits raw 5 1 * 64
    + get_bits raw 6 1 * 16
    + get_bits raw 12 1 * 512

abbrev pub j_offset : ℕ → ℕ
j_offset raw =
    get_bits raw 2 1 * 32
    + get_bits raw 3 3 * 2
    + get_bits raw 6 1 * 128
    + get_bits raw 7 1 * 64
    + get_bits raw 8 1 * 1024
    + get_bits raw 9 2 * 256
    + get_bits raw 11 1 * 16
    + get_bits raw 12 1 * 2048

abbrev pub b_offset : ℕ → ℕ
b_offset raw =
    get_bits raw 2 1 * 32
    + get_bits raw 3 2 * 2
    + get_bits raw 5 2 * 64
    + get_bits raw 10 2 * 8
    + get_bits raw 12 1 * 256

-- C.ADDI4SPN: addi rd', x2, imm
abbrev pub addi4spn_form : ℕ → IForm
addi4spn_form raw = record { rd = short raw 2; funct3 = 0; rs1 = 2; imm = addi4spn_imm raw }

unfoldable pub full_addi4spn : ℕ → ℕ
full_addi4spn raw = encode_i OpCode.op_imm (addi4spn_form raw)

-- C.LW: lw rd', offset(rs1')
abbrev pub lw_form : ℕ → IForm
lw_form raw = record { rd = short raw 2; funct3 = 2; rs1 = short raw 7; imm = off_word raw }

unfoldable pub full_lw : ℕ → ℕ
full_lw raw = encode_i OpCode.load (lw_form raw)

-- C.LD: ld rd', offset(rs1')
abbrev pub ld_form : ℕ → IForm
ld_form raw = record { rd = short raw 2; funct3 = 3; rs1 = short raw 7; imm = off_dword raw }

unfoldable pub full_ld : ℕ → ℕ
full_ld raw = encode_i OpCode.load (ld_form raw)

-- C.SW: sw rs2', offset(rs1')
abbrev pub sw_form : ℕ → SForm
sw_form raw = record { funct3 = 2; rs1 = short raw 7; rs2 = short raw 2; imm = off_word raw }

unfoldable pub full_sw : ℕ → ℕ
full_sw raw = encode_s OpCode.store (sw_form raw)

-- C.SD: sd rs2', offset(rs1')
abbrev pub sd_form : ℕ → SForm
sd_form raw = record { funct3 = 3; rs1 = short raw 7; rs2 = short raw 2; imm = off_dword raw }

unfoldable pub full_sd : ℕ → ℕ
full_sd raw = encode_s OpCode.store (sd_form raw)

-- C.ADDI: addi rd, rd, imm
abbrev pub addi_form : ℕ → IForm
addi_form raw = record {
  rd = get_bits raw 7 5;
  funct3 = 0;
  rs1 = get_bits raw 7 5;
  imm = widen 12 6 (imm6 raw);
}

unfoldable pub full_addi : ℕ → ℕ
full_addi raw = encode_i OpCode.op_imm (addi_form raw)

-- C.ADDIW: addiw rd, rd, imm
abbrev pub addiw_form : ℕ → IForm
addiw_form raw = record {
  rd = get_bits raw 7 5;
  funct3 = 0;
  rs1 = get_bits raw 7 5;
  imm = widen 12 6 (imm6 raw);
}

unfoldable pub full_addiw : ℕ → ℕ
full_addiw raw = encode_i OpCode.op_imm32 (addiw_form raw)

-- C.ADDI16SP: addi x2, x2, imm
abbrev pub addi16sp_form : ℕ → IForm
addi16sp_form raw = record { rd = 2; funct3 = 0; rs1 = 2; imm = widen 12 10 (sp_imm raw) }

unfoldable pub full_addi16sp : ℕ → ℕ
full_addi16sp raw = encode_i OpCode.op_imm (addi16sp_form raw)

-- C.LUI: lui rd, imm
unfoldable pub full_lui : ℕ → ℕ
full_lui raw = encode_u OpCode.lui (get_bits raw 7 5) (widen 20 6 (imm6 raw))

-- C.SRLI: srli rd', rd', shamt
abbrev pub srli_form : ℕ → IForm
srli_form raw = record { rd = short raw 7; funct3 = 5; rs1 = short raw 7; imm = imm6 raw }

unfoldable pub full_srli : ℕ → ℕ
full_srli raw = encode_i OpCode.op_imm (srli_form raw)

-- C.SRAI: srai rd', rd', shamt
abbrev pub srai_form : ℕ → IForm
srai_form raw = record { rd = short raw 7; funct3 = 5; rs1 = short raw 7; imm = imm6 raw + 1024 }

unfoldable pub full_srai : ℕ → ℕ
full_srai raw = encode_i OpCode.op_imm (srai_form raw)

-- C.ANDI: andi rd', rd', imm
abbrev pub andi_form : ℕ → IForm
andi_form raw = record {
  rd = short raw 7;
  funct3 = 7;
  rs1 = short raw 7;
  imm = widen 12 6 (imm6 raw);
}

unfoldable pub full_andi : ℕ → ℕ
full_andi raw = encode_i OpCode.op_imm (andi_form raw)

-- C.SUB to C.ADDW: a register operation between short registers, into the first.
abbrev pub op_form : ℕ → ℕ → ℕ → RForm
op_form funct3 funct7 raw = record {
  rd = short raw 7;
  funct3 = funct3;
  rs1 = short raw 7;
  rs2 = short raw 2;
  funct7 = funct7;
}

unfoldable pub full_op : ℕ → ℕ → ℕ → ℕ → ℕ
full_op opcode funct3 funct7 raw = encode_r opcode (op_form funct3 funct7 raw)

-- C.J: jal x0, offset
unfoldable pub full_j : ℕ → ℕ
full_j raw = encode_j OpCode.jal 0 (widen 21 12 (j_offset raw))

-- C.BEQZ and C.BNEZ: beq or bne rs1', x0, offset
abbrev pub branch_form : ℕ → ℕ → SForm
branch_form funct3 raw = record {
  funct3 = funct3;
  rs1 = short raw 7;
  rs2 = 0;
  imm = widen 13 9 (b_offset raw);
}

unfoldable pub full_branch : ℕ → ℕ → ℕ
full_branch funct3 raw = encode_b OpCode.branch (branch_form funct3 raw)

-- C.SLLI: slli rd, rd, shamt
abbrev pub slli_form : ℕ → IForm
slli_form raw = record { rd = get_bits raw 7 5; funct3 = 1; rs1 = get_bits raw 7 5; imm = imm6 raw }

unfoldable pub full_slli : ℕ → ℕ
full_slli raw = encode_i OpCode.op_imm (slli_form raw)

-- C.LWSP: lw rd, offset(x2)
abbrev pub lwsp_form : ℕ → IForm
lwsp_form raw = record {
  rd = get_bits raw 7 5;
  funct3 = 2;
  rs1 = 2;
  imm = get_bits raw 2 2 * 64 + get_bits raw 4 3 * 4 + get_bits raw 12 1 * 32;
}

unfoldable pub full_lwsp : ℕ → ℕ
full_lwsp raw = encode_i OpCode.load (lwsp_form raw)

-- C.LDSP: ld rd, offset(x2)
abbrev pub ldsp_form : ℕ → IForm
ldsp_form raw = record {
  rd = get_bits raw 7 5;
  funct3 = 3;
  rs1 = 2;
  imm = get_bits raw 2 3 * 64 + get_bits raw 5 2 * 8 + get_bits raw 12 1 * 32;
}

unfoldable pub full_ldsp : ℕ → ℕ
full_ldsp raw = encode_i OpCode.load (ldsp_form raw)

-- C.JR: jalr x0, 0(rs1)
abbrev pub jr_form : ℕ → IForm
jr_form raw = record { rd = 0; funct3 = 0; rs1 = get_bits raw 7 5; imm = 0 }

unfoldable pub full_jr : ℕ → ℕ
full_jr raw = encode_i OpCode.jalr (jr_form raw)

-- C.JALR: jalr x1, 0(rs1)
abbrev pub jalr_form : ℕ → IForm
jalr_form raw = record { rd = 1; funct3 = 0; rs1 = get_bits raw 7 5; imm = 0 }

unfoldable pub full_jalr : ℕ → ℕ
full_jalr raw = encode_i OpCode.jalr (jalr_form raw)

-- C.ADD: add rd, rd, rs2
abbrev pub add_form : ℕ → RForm
add_form raw = record {
  rd = get_bits raw 7 5;
  funct3 = 0;
  rs1 = get_bits raw 7 5;
  rs2 = get_bits raw 2 5;
  funct7 = 0;
}

unfoldable pub full_add : ℕ → ℕ
full_add raw = encode_r OpCode.op (add_form raw)

-- C.SWSP: sw rs2, offset(x2)
abbrev pub swsp_form : ℕ → SForm
swsp_form raw = record {
  funct3 = 2;
  rs1 = 2;
  rs2 = get_bits raw 2 5;
  imm = get_bits raw 7 2 * 64 + get_bits raw 9 4 * 4;
}

unfoldable pub full_swsp : ℕ → ℕ
full_swsp raw = encode_s OpCode.store (swsp_form raw)

-- C.SDSP: sd rs2, offset(x2)
abbrev pub sdsp_form : ℕ → SForm
sdsp_form raw = record {
  funct3 = 3;
  rs1 = 2;
  rs2 = get_bits raw 2 5;
  imm = get_bits raw 7 3 * 64 + get_bits raw 10 3 * 8;
}

unfoldable pub full_sdsp : ℕ → ℕ
full_sdsp raw = encode_s OpCode.store (sdsp_form raw)
