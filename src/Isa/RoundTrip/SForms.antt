-- ===== src/Isa/RoundTrip/SForms.antt =====
-- Stores and branches: the S and B formats come back from decode_rv64.
use nullrvsim.Prelude.{ℕ, ◌+◌, ◌*◌, ◌%◌, ◌^◌, ◌<◌, bit_or, ◌≡◌, true, arith}
use nullrvsim.Isa.Codes.OpCode
use nullrvsim.Isa.Codes.Flag
use nullrvsim.Isa.Fields.{get_bits}
use nullrvsim.Isa.Sext.{sext}
use nullrvsim.Isa.Decoded.{Decoded, clear, load_store, branch}
use nullrvsim.Isa.Decode.{decode_rv64, decode_by_opcode, decode_store, decode_branch}
use nullrvsim.Isa.Immediates.{get_imm_s-eq, get_imm_b-eq}
use nullrvsim.Isa.Encode.{SForm, encode_s, encode_b}

pub record IsSForm (width : ℕ) (f : SForm) : Type 0 where
  pub funct3_fits : f.funct3 < 8
  pub rs1_fits : f.rs1 < 32
  pub rs2_fits : f.rs2 < 32
  pub imm_fits : f.imm < 2 ^ width

encode_s-bits :
    (opcode : ℕ) {f : SForm}
    → opcode < 128
    → IsSForm 12 f
    → let raw = encode_s opcode f in
      (get_bits raw 0 7 ≡ opcode)
      × (get_bits raw 12 3 ≡ f.funct3)
      × (get_bits raw 15 5 ≡ f.rs1)
      × (get_bits raw 20 5 ≡ f.rs2)
      × (get_bits raw 7 5 + get_bits raw 25 7 * 32 ≡ f.imm)
encode_s-bits opcode h v = omega arith

-- An encoded store decodes to a store of the given width, with the encoded registers and the offset
-- put together from its two fields and sign-extended.
pub decode_rv64-encode_store :
    {f : SForm} (dec : Decoded)
    → IsSForm 12 f
    → decode_rv64 (encode_s OpCode.store f) dec ≡ (
      true,
      record (clear dec) {
        opcode = OpCode.store;
        rs1 = f.rs1;
        rs2 = f.rs2;
        imm = sext 12 f.imm;
        param = load_store f.funct3;
        flag = bit_or Flag.s1_int Flag.s2_int;
      },
    )
unfolding decode_rv64 decode_by_opcode decode_store
decode_rv64-encode_store {f} dec v = ground (
  arith,
  encode_s-bits OpCode.store {f = f} (omega arith) v,
  get_imm_s-eq (encode_s OpCode.store f),
)

encode_b-bits :
    (opcode : ℕ) {f : SForm}
    → opcode < 128
    → IsSForm 13 f
    → f.imm % 2 ≡ 0
    → let raw = encode_b opcode f in
      (get_bits raw 0 7 ≡ opcode)
      × (get_bits raw 12 3 ≡ f.funct3)
      × (get_bits raw 15 5 ≡ f.rs1)
      × (get_bits raw 20 5 ≡ f.rs2)
      × (get_bits raw 8 4 * 2
            + get_bits raw 25 6 * 32
            + get_bits raw 7 1 * 2048
            + get_bits raw 31 1 * 4096
          ≡ f.imm)
encode_b-bits opcode h v even = omega arith

-- An encoded branch decodes to the branch of its condition, with the encoded registers and the even
-- offset of 13 bits put together from its four fields and sign-extended.
pub decode_rv64-encode_branch :
    {f : SForm} (dec : Decoded)
    → IsSForm 13 f
    → f.imm % 2 ≡ 0
    → decode_rv64 (encode_b OpCode.branch f) dec ≡ (
      true,
      record (clear dec) {
        opcode = OpCode.branch;
        rs1 = f.rs1;
        rs2 = f.rs2;
        imm = sext 13 f.imm;
        param = branch f.funct3;
        flag = bit_or Flag.s1_int Flag.s2_int;
      },
    )
unfolding decode_rv64 decode_by_opcode decode_branch
decode_rv64-encode_branch {f} dec v even = ground (
  arith,
  encode_b-bits OpCode.branch {f = f} (omega arith) v even,
  get_imm_b-eq (encode_b OpCode.branch f),
)
