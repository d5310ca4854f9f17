-- ===== src/Isa/RoundTrip/UForms.antt =====
-- lui and jal: the U and J formats come back from decode_rv64.
use nullrvsim.Prelude.{ℕ, ◌+◌, ◌*◌, ◌%◌, ◌^◌, ◌<◌, ◌≡◌, true, arith}
use nullrvsim.Isa.Codes.OpCode
use nullrvsim.Isa.Codes.Flag
use nullrvsim.Isa.Fields.{get_bits}
use nullrvsim.Isa.Sext.{sext}
use nullrvsim.Isa.Decoded.{Decoded, clear}
use nullrvsim.Isa.Decode.{decode_rv64, decode_by_opcode, decode_u, decode_jal}
use nullrvsim.Isa.Immediates.{get_imm_u-eq, get_imm_j-eq}
use nullrvsim.Isa.Encode.{encode_u, encode_j}

encode_u-bits :
    (opcode rd imm : ℕ)
    → opcode < 128
    → rd < 32
    → imm < 2 ^ 20
    → let raw = encode_u opcode rd imm in
      (get_bits raw 0 7 ≡ opcode)
      × (get_bits raw 7 5 ≡ rd)
      × (get_bits raw 12 20 ≡ imm)
      × (raw < 2 ^ 32)
encode_u-bits opcode rd imm h r i = omega arith

-- An encoded lui decodes to its register and its twenty bits, shifted up and sign-extended.
pub decode_rv64-encode_lui :
    (rd imm : ℕ) (dec : Decoded)
    → rd < 32
    → imm < 2 ^ 20
    → decode_rv64 (encode_u OpCode.lui rd imm) dec ≡ (
      true,
      record (clear dec) {
        opcode = OpCode.lui;
        rd = rd;
        imm = sext 32 (imm * 4096);
        flag = Flag.rd_int;
      },
    )
unfolding decode_rv64 decode_by_opcode decode_u
decode_rv64-encode_lui rd imm dec r i = ground (
  arith,
  encode_u-bits OpCode.lui rd imm (omega arith) r i,
  get_imm_u-eq (encode_u OpCode.lui rd imm),
)

encode_j-bits :
    (opcode rd imm : ℕ)
    → opcode < 128
    → rd < 32
    → imm < 2 ^ 21
    → imm % 2 ≡ 0
    → let raw = encode_j opcode rd imm in
      (get_bits raw 0 7 ≡ opcode)
      × (get_bits raw 7 5 ≡ rd)
      × (get_bits raw 21 10 * 2
            + get_bits raw 20 1 * 2048
            + get_bits raw 12 8 * 4096
            + get_bits raw 31 1 * 0x10_0000
          ≡ imm)
encode_j-bits opcode rd imm h r i even = omega arith

-- An encoded jal decodes to its register and its even offset of 21 bits, sign-extended.
pub decode_rv64-encode_jal :
    (rd imm : ℕ) (dec : Decoded)
    → rd < 32
    → imm < 2 ^ 21
    → imm % 2 ≡ 0
    → decode_rv64 (encode_j OpCode.jal rd imm) dec ≡ (
      true,
      record (clear dec) { opcode = OpCode.jal; rd = rd; imm = sext 21 imm; flag = Flag.rd_int },
    )
unfolding decode_rv64 decode_by_opcode decode_jal
decode_rv64-encode_jal rd imm dec r i even = ground (
  arith,
  encode_j-bits OpCode.jal rd imm (omega arith) r i even,
  get_imm_j-eq (encode_j OpCode.jal rd imm),
)
