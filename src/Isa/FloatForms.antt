-- ===== src/Isa/FloatForms.antt =====
-- The compressed floating-point loads and stores against the full-size ones: the register file that
-- the decoder names for the data register.
use nullrvsim.Prelude.{ℕ, ◌+◌, bit_or, ◌≡◌, ◌⊎◌, true, arith}
use nullrvsim.Isa.Codes.OpCode
use nullrvsim.Isa.Codes.Flag
use nullrvsim.Isa.Decoded.{Decoded, clear, load_store}
use nullrvsim.Isa.Fields.{get_bits}
use nullrvsim.Isa.Sext.{sext}
use nullrvsim.Isa.Compressed.{decode_rv64c}
use nullrvsim.Isa.Compressed.Quadrant0.{decode_quadrant0, c_load_dword, c_store_dword}
use nullrvsim.Isa.Compressed.Quadrant2.{decode_quadrant2, c_load_sp}
use nullrvsim.Isa.Decode.{decode_rv64, decode_by_opcode, decode_load}
use nullrvsim.Isa.Immediates.{get_imm_i-eq}
use nullrvsim.Isa.Encode.{IForm, encode_i}
use nullrvsim.Isa.RoundTrip.IForms.{IsIForm, encode_i-bits}

-- An encoded floating-point load decodes to a load into the floating-point file.
pub decode_rv64-encode_load_fp :
    {f : IForm} (dec : Decoded)
    → IsIForm f
    → decode_rv64 (encode_i OpCode.load_fp f) dec ≡ (
      true,
      record (clear dec) {
        opcode = OpCode.load_fp;
        rd = f.rd;
        rs1 = f.rs1;
        imm = sext 12 f.imm;
        param = load_store f.funct3;
        flag = bit_or Flag.rd_fp Flag.s1_int;
      },
    )
unfolding decode_rv64 decode_by_opcode decode_load
decode_rv64-encode_load_fp {f} dec v = ground (
  arith,
  encode_i-bits OpCode.load_fp {f = f} (omega arith) v,
  get_imm_i-eq (encode_i OpCode.load_fp f),
)

module _ (raw : ℕ) (dec : Decoded) where
  -- Every C.FLD and every C.FLDSP decodes to the opcode of a floating-point load with the flag of an
  -- integer target register; the full-size load of the theorem above has the floating-point flag.
  pub c_fld-flag :
      (get_bits raw 0 2 ≡ 0) ⊎ (get_bits raw 0 2 ≡ 2)
      → get_bits raw 13 3 ≡ 1
      → ((decode_rv64 raw dec).1.opcode ≡ OpCode.load_fp)
        × ((decode_rv64 raw dec).1.flag ≡ Flag.rvc + Flag.rd_int + Flag.s1_int)
  unfolding decode_rv64 decode_rv64c decode_quadrant0 c_load_dword decode_quadrant2 c_load_sp
  c_fld-flag q h = ground arith

  -- Every C.FSD decodes to a store of an integer register: the opcode is store, not storefp, and the
  -- flags name the integer file for both sources.
  pub c_fsd-opcode :
      get_bits raw 0 2 ≡ 0
      → get_bits raw 13 3 ≡ 5
      → ((decode_rv64 raw dec).1.opcode ≡ OpCode.store)
        × ((decode_rv64 raw dec).1.flag ≡ Flag.rvc + Flag.s1_int + Flag.s2_int)
  unfolding decode_rv64 decode_rv64c decode_quadrant0 c_store_dword
  c_fsd-opcode q h = ground arith
