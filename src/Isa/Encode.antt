-- ===== src/Isa/Encode.antt =====
-- The instruction formats of the RISC-V manual, written from the manual: an encoder for each of
-- the six base formats. The decoder is held against them.
use nullrvsim.Prelude.{ℕ, ◌+◌, ◌*◌, ◌/◌, ◌%◌}

pub record IForm : Type 0 where
  pub rd : ℕ
  pub funct3 : ℕ
  pub rs1 : ℕ
  pub imm : ℕ

-- imm[11:0] | rs1 | funct3 | rd | opcode
abbrev pub encode_i : ℕ → IForm → ℕ
encode_i opcode f = opcode + f.rd * 0x80 + f.funct3 * 0x1000 + f.rs1 * 0x8000 + f.imm * 0x10_0000

pub record RForm : Type 0 where
  pub rd : ℕ
  pub funct3 : ℕ
  pub rs1 : ℕ
  pub rs2 : ℕ
  pub funct7 : ℕ

-- funct7 | rs2 | rs1 | funct3 | rd | opcode
abbrev pub encode_r : ℕ → RForm → ℕ
encode_r opcode f =
    opcode
    + f.rd * 0x80
    + f.funct3 * 0x1000
    + f.rs1 * 0x8000
    + f.rs2 * 0x10_0000
    + f.funct7 * 0x200_0000

-- The operands of stores and branches.
pub record SForm : Type 0 where
  pub funct3 : ℕ
  pub rs1 : ℕ
  pub rs2 : ℕ
  pub imm : ℕ

-- imm[11:5] | rs2 | rs1 | funct3 | imm[4:0] | opcode
abbrev pub encode_s : ℕ → SForm → ℕ
encode_s opcode f =
    opcode
    + f.imm % 32 * 0x80
    + f.funct3 * 0x1000
    + f.rs1 * 0x8000
    + f.rs2 * 0x10_0000
    + f.imm / 32 * 0x200_0000

-- imm[12|10:5] | rs2 | rs1 | funct3 | imm[4:1|11] | opcode, for an even offset of 13 bits
abbrev pub encode_b : ℕ → SForm → ℕ
encode_b opcode f =
    opcode
    + f.imm / 2048 % 2 * 0x80
    + f.imm / 2 % 16 * 0x100
    + f.funct3 * 0x1000
    + f.rs1 * 0x8000
    + f.rs2 * 0x10_0000
    + f.imm / 32 % 64 * 0x200_0000
    + f.imm / 4096 * 0x8000_0000

-- imm[31:12] | rd | opcode; `imm` is the field of twenty bits.
abbrev pub encode_u : ℕ → ℕ → ℕ → ℕ
encode_u opcode rd imm = opcode + rd * 0x80 + imm * 0x1000

-- imm[20|10:1|11|19:12] | rd | opcode, for an even offset of 21 bits
abbrev pub encode_j : ℕ → ℕ → ℕ → ℕ
encode_j opcode rd imm =
    opcode
    + rd * 0x80
    + imm / 4096 % 256 * 0x1000
    + imm / 2048 % 2 * 0x10_0000
    + imm / 2 % 1024 * 0x20_0000
    + imm / 0x10_0000 * 0x8000_0000
