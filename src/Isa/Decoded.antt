-- ===== src/Isa/Decoded.antt =====
-- The decoded instruction of src/cpu/isa.h: RV64InstDecoded and the union RV64InstParam.
use nullrvsim.Prelude.{ℕ, bit_or, List, []}

-- RV64InstParam: the member last written, `zeroed` after the memset. For `fp` the fields are the
-- operation, the float width, the integer width and funct3.
pub data Param : Type 0 where
  zeroed : Param
  load_store : ℕ → Param
  branch : ℕ → Param
  int_op : ℕ → Param
  amo : ℕ → ℕ → Param
  fp : ℕ → ℕ → ℕ → ℕ → Param
  csr : ℕ → ℕ → Param

pub record Decoded : Type 0 where
  pub pc : ℕ
  pub opcode : ℕ
  pub param : Param
  pub rs1 : ℕ
  pub rs2 : ℕ
  pub rs3 : ℕ
  pub rd : ℕ
  pub imm : ℕ
  pub flag : ℕ
  pub debug_name : List ℕ

-- `dec->flag |= f`
abbrev pub add_flag : ℕ → Decoded → Decoded
add_flag f dec = record dec { flag = bit_or dec.flag f }

-- What decode_rv64 resets before it looks at the instruction; `pc` stays.
abbrev pub clear : Decoded → Decoded
clear dec = record dec {
  opcode = 0;
  param = zeroed;
  rs1 = 0;
  rs2 = 0;
  rs3 = 0;
  rd = 0;
  imm = 0;
  flag = 0;
  debug_name = [];
}
