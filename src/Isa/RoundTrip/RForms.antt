-- ===== src/Isa/RoundTrip/RForms.antt =====
-- Register operations: the R format comes back from decode_rv64.
use nullrvsim.Prelude.{ℕ, ◌+◌, ◌*◌, ◌<◌, bit_or, ◌≡◌, true, arith, ◌⊎◌, inl, inr}
use nullrvsim.Isa.Codes.OpCode
use nullrvsim.Isa.Codes.Flag
use nullrvsim.Isa.Fields.{get_bits}
use nullrvsim.Prelude.Bits.{bit_or-field}
use nullrvsim.Isa.Decoded.{Decoded, clear, int_op}
use nullrvsim.Isa.Decode.{decode_rv64, decode_by_opcode, decode_op}
use nullrvsim.Isa.Encode.{RForm, encode_r}

pub record IsRForm (f : RForm) : Type 0 where
  pub rd_fits : f.rd < 32
  pub funct3_fits : f.funct3 < 8
  pub rs1_fits : f.rs1 < 32
  pub rs2_fits : f.rs2 < 32
  pub funct7_fits : f.funct7 < 128

encode_r-bits :
    (opcode : ℕ) {f : RForm}
    → opcode < 128
    → IsRForm f
    → let raw = encode_r opcode f in
      (get_bits raw 0 7 ≡ opcode)
      × (get_bits raw 7 5 ≡ f.rd)
      × (get_bits raw 12 3 ≡ f.funct3)
      × (get_bits raw 15 5 ≡ f.rs1)
      × (get_bits raw 20 5 ≡ f.rs2)
      × (get_bits raw 25 7 ≡ f.funct7)
encode_r-bits opcode h v = omega arith

-- An encoded register operation, of 64 or of 32 bits, decodes to the operation that funct3 and
-- funct7 make up, on the encoded registers.
pub decode_rv64-encode_op :
    (opcode : ℕ) {f : RForm} (dec : Decoded)
    → (opcode ≡ OpCode.op) ⊎ (opcode ≡ OpCode.op32)
    → IsRForm f
    → decode_rv64 (encode_r opcode f) dec ≡ (
      true,
      record (clear dec) {
        opcode = opcode;
        rd = f.rd;
        rs1 = f.rs1;
        rs2 = f.rs2;
        param = int_op (f.funct3 + f.funct7 * 8);
        flag = bit_or (bit_or Flag.rd_int Flag.s1_int) Flag.s2_int;
      },
    )
unfolding decode_rv64 decode_by_opcode decode_op
decode_rv64-encode_op opcode {f} dec (inl e) v =
    ground (arith, encode_r-bits opcode {f = f} (omega arith) v, bit_or-field 3 7 f.funct3 f.funct7)
decode_rv64-encode_op opcode {f} dec (inr e) v =
    ground (arith, encode_r-bits opcode {f = f} (omega arith) v, bit_or-field 3 7 f.funct3 f.funct7)
