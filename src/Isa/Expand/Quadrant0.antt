-- ===== src/Isa/Expand/Quadrant0.antt =====
-- Quadrant 0 decodes as its expansion.
use nullrvsim.Prelude.{ℕ, ◌≡◌, true, some, arith}
use nullrvsim.Isa.Codes.OpCode
use nullrvsim.Isa.Decoded.{Decoded}
use nullrvsim.Isa.Decode.{decode_rv64}
use nullrvsim.Isa.Compressed.Quadrant0.{
  decode_quadrant0, c_addi4spn, c_load_dword, c_lw, c_store_dword, c_sw,
}
use nullrvsim.Isa.Immediates.Compressed.{imm_addi4spn-eq, imm_dword-eq, imm_word-eq}
use nullrvsim.Isa.RoundTrip.IForms.{decode_rv64-encode_load, decode_rv64-encode_op_imm}
use nullrvsim.Isa.RoundTrip.SForms.{decode_rv64-encode_store}
use nullrvsim.Isa.Expand.Forms.{
  full_addi4spn, addi4spn_form, full_lw, lw_form, full_ld, ld_form, full_sw, sw_form, full_sd,
  sd_form,
}
use nullrvsim.Isa.Expand.Defs.{expand0, as_rvc, rvc_start}

c_addi4spn-expands :
    (raw : ℕ) (dec : Decoded)
    → (true, c_addi4spn raw (rvc_start dec)) ≡ as_rvc (decode_rv64 (full_addi4spn raw) dec)
unfolding c_addi4spn full_addi4spn
c_addi4spn-expands raw dec =
    rw (decode_rv64-encode_op_imm {f = addi4spn_form raw} dec (omega arith))
      (ground (arith, imm_addi4spn-eq raw))

c_lw-expands :
    (raw : ℕ) (dec : Decoded)
    → (true, c_lw raw (rvc_start dec)) ≡ as_rvc (decode_rv64 (full_lw raw) dec)
unfolding c_lw full_lw
c_lw-expands raw dec =
    rw (decode_rv64-encode_load {f = lw_form raw} dec (omega arith))
      (ground (arith, imm_word-eq raw))

c_ld-expands :
    (raw : ℕ) (dec : Decoded)
    → (true, c_load_dword OpCode.load raw (rvc_start dec)) ≡ as_rvc (decode_rv64 (full_ld raw) dec)
unfolding c_load_dword full_ld
c_ld-expands raw dec =
    rw (decode_rv64-encode_load {f = ld_form raw} dec (omega arith))
      (ground (arith, imm_dword-eq raw))

c_sw-expands :
    (raw : ℕ) (dec : Decoded)
    → (true, c_sw raw (rvc_start dec)) ≡ as_rvc (decode_rv64 (full_sw raw) dec)
unfolding c_sw full_sw
c_sw-expands raw dec =
    rw (decode_rv64-encode_store {f = sw_form raw} dec (omega arith))
      (ground (arith, imm_word-eq raw))

c_sd-expands :
    (raw : ℕ) (dec : Decoded)
    → (true, c_store_dword raw (rvc_start dec)) ≡ as_rvc (decode_rv64 (full_sd raw) dec)
unfolding c_store_dword full_sd
c_sd-expands raw dec =
    rw (decode_rv64-encode_store {f = sd_form raw} dec (omega arith))
      (ground (arith, imm_dword-eq raw))

pub quadrant0-expand0 :
    (func raw : ℕ) {full : ℕ} (dec : Decoded)
    → expand0 func raw ≡ some full
    → decode_quadrant0 func raw (rvc_start dec) ≡ as_rvc (decode_rv64 full dec)
unfolding expand0 decode_quadrant0
quadrant0-expand0 func raw dec e = ground (
  arith,
  c_addi4spn-expands raw dec,
  c_lw-expands raw dec,
  c_ld-expands raw dec,
  c_sw-expands raw dec,
  c_sd-expands raw dec,
)
