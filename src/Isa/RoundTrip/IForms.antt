-- ===== src/Isa/RoundTrip/IForms.antt =====
-- Loads, jalr and immediate operations: the I format comes back from decode_rv64.
use nullrvsim.Prelude.{
  ℕ, ◌%◌, ◌^◌, ◌/◌, ◌<◌, bit_or, ◌≡◌, refl, true, arith, ◌==◌, ◌⊎◌, if◌then◌else◌, ◌&&◌, ◌||◌, inl,
  inr,
}
use nullrvsim.Isa.Codes.OpCode
use nullrvsim.Isa.Codes.IntOp
use nullrvsim.Isa.Codes.Flag
use nullrvsim.Isa.Fields.{get_bits}
use nullrvsim.Isa.Sext.{sext}
use nullrvsim.Isa.Decoded.{Decoded, clear, load_store, int_op}
use nullrvsim.Isa.Decode.{
  decode_rv64, decode_by_opcode, decode_load, decode_jalr, decode_op_imm, op_imm_value, op_imm_op,
}
use nullrvsim.Isa.Immediates.{get_imm_i-eq}
use nullrvsim.Isa.Encode.{IForm, encode_i}

pub record IsIForm (f : IForm) : Type 0 where
  pub rd_fits : f.rd < 32
  pub funct3_fits : f.funct3 < 8
  pub rs1_fits : f.rs1 < 32
  pub imm_fits : f.imm < 4096

pub encode_i-bits :
    (opcode : ℕ) {f : IForm}
    → opcode < 128
    → IsIForm f
    → let raw = encode_i opcode f in
      (get_bits raw 0 7 ≡ opcode)
      × (get_bits raw 7 5 ≡ f.rd)
      × (get_bits raw 12 3 ≡ f.funct3)
      × (get_bits raw 15 5 ≡ f.rs1)
      × (get_bits raw 20 12 ≡ f.imm)
encode_i-bits opcode h v = omega arith

-- An encoded load decodes to a load of the given width, with the encoded registers and the offset
-- sign-extended to 64 bits. Nothing is left of an instruction decoded before, but its `pc`.
pub decode_rv64-encode_load :
    {f : IForm} (dec : Decoded)
    → IsIForm f
    → decode_rv64 (encode_i OpCode.load f) dec ≡ (
      true,
      record (clear dec) {
        opcode = OpCode.load;
        rd = f.rd;
        rs1 = f.rs1;
        imm = sext 12 f.imm;
        param = load_store f.funct3;
        flag = bit_or Flag.rd_int Flag.s1_int;
      },
    )
unfolding decode_rv64 decode_by_opcode decode_load
decode_rv64-encode_load {f} dec v = ground (
  arith,
  encode_i-bits OpCode.load {f = f} (omega arith) v,
  get_imm_i-eq (encode_i OpCode.load f),
)

-- An encoded jalr decodes to jalr with the encoded registers and the offset sign-extended.
pub decode_rv64-encode_jalr :
    {f : IForm} (dec : Decoded)
    → IsIForm f
    → decode_rv64 (encode_i OpCode.jalr f) dec ≡ (
      true,
      record (clear dec) {
        opcode = OpCode.jalr;
        rd = f.rd;
        rs1 = f.rs1;
        imm = sext 12 f.imm;
        flag = bit_or Flag.rd_int Flag.s1_int;
      },
    )
unfolding decode_rv64 decode_by_opcode decode_jalr
decode_rv64-encode_jalr {f} dec v = ground (
  arith,
  encode_i-bits OpCode.jalr {f = f} (omega arith) v,
  get_imm_i-eq (encode_i OpCode.jalr f),
)

-- The manual's reading of an immediate operation: shifts (funct3 1 and 5) take the low six bits
-- (five for the 32-bit forms), and bit 10 of the immediate makes a right shift arithmetic.
abbrev pub op_imm_operand : ℕ → IForm → ℕ
op_imm_operand width f = if f.funct3 == 1 || f.funct3 == 5 then f.imm % 2 ^ width else sext 12 f.imm

abbrev pub op_imm_code : IForm → ℕ
op_imm_code f = if f.funct3 == 5 && f.imm / 1024 % 2 == 1 then IntOp.sra else f.funct3

op_imm-encode_i :
    (opcode : ℕ) {f : IForm}
    → (opcode ≡ OpCode.op_imm) ⊎ (opcode ≡ OpCode.op_imm32)
    → IsIForm f
    → (op_imm_value opcode (encode_i opcode f)
        ≡ op_imm_operand (if opcode == OpCode.op_imm then 6 else 5) f)
      × (op_imm_op (encode_i opcode f) ≡ op_imm_code f)
unfolding op_imm_value op_imm_op
op_imm-encode_i opcode {f} (inl e) v =
    ground (arith, encode_i-bits opcode {f = f} (omega arith) v, get_imm_i-eq (encode_i opcode f))
op_imm-encode_i opcode {f} (inr e) v =
    ground (arith, encode_i-bits opcode {f = f} (omega arith) v, get_imm_i-eq (encode_i opcode f))

-- An encoded immediate operation of 64 bits decodes to the operation and the operand that the
-- manual reads in it, shift amounts of six bits included.
pub decode_rv64-encode_op_imm :
    {f : IForm} (dec : Decoded)
    → IsIForm f
    → decode_rv64 (encode_i OpCode.op_imm f) dec ≡ (
      true,
      record (clear dec) {
        opcode = OpCode.op_imm;
        rd = f.rd;
        rs1 = f.rs1;
        imm = op_imm_operand 6 f;
        param = int_op (op_imm_code f);
        flag = bit_or Flag.rd_int Flag.s1_int;
      },
    )
unfolding decode_rv64 decode_by_opcode decode_op_imm
decode_rv64-encode_op_imm {f} dec v = ground (
  arith,
  encode_i-bits OpCode.op_imm {f = f} (omega arith) v,
  op_imm-encode_i OpCode.op_imm {f = f} (inl refl) v,
)

-- An encoded immediate operation of 32 bits decodes to the operation and the operand that the
-- manual reads in it, shift amounts of five bits included.
pub decode_rv64-encode_op_imm32 :
    {f : IForm} (dec : Decoded)
    → IsIForm f
    → decode_rv64 (encode_i OpCode.op_imm32 f) dec ≡ (
      true,
      record (clear dec) {
        opcode = OpCode.op_imm32;
        rd = f.rd;
        rs1 = f.rs1;
        imm = op_imm_operand 5 f;
        param = int_op (op_imm_code f);
        flag = bit_or Flag.rd_int Flag.s1_int;
      },
    )
unfolding decode_rv64 decode_by_opcode decode_op_imm
decode_rv64-encode_op_imm32 {f} dec v = ground (
  arith,
  encode_i-bits OpCode.op_imm32 {f = f} (omega arith) v,
  op_imm-encode_i OpCode.op_imm32 {f = f} (inr refl) v,
)
