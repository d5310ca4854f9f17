-- ===== src/Isa/Expand/Quadrant2.antt =====
-- Quadrant 2 decodes as its expansion.
use nullrvsim.Prelude.{ℕ, ◌≡◌, ◌≢◌, true, some, arith, refl, inl}
use nullrvsim.Isa.Codes.OpCode
use nullrvsim.Isa.Codes.LsWidth
use nullrvsim.Isa.Decoded.{Decoded}
use nullrvsim.Isa.Decode.{decode_rv64}
use nullrvsim.Isa.Compressed.Imm.{imm_ldsp, imm_lwsp, imm_sdsp, imm_swsp}
use nullrvsim.Isa.Compressed.Quadrant2.{
  decode_quadrant2, c_slli, c_load_sp, c_store_sp, c_mv_jr, c_add_jalr, reg7, reg2,
}
use nullrvsim.Isa.Immediates.Compressed.{
  imm_shamt-eq, imm_ldsp-eq, imm_lwsp-eq, imm_sdsp-eq, imm_swsp-eq,
}
use nullrvsim.Isa.RoundTrip.IForms.{
  decode_rv64-encode_load, decode_rv64-encode_op_imm, decode_rv64-encode_jalr,
}
use nullrvsim.Isa.RoundTrip.RForms.{decode_rv64-encode_op}
use nullrvsim.Isa.RoundTrip.SForms.{decode_rv64-encode_store}
use nullrvsim.Isa.Expand.Forms.{
  full_slli, slli_form, full_lwsp, lwsp_form, full_ldsp, ldsp_form, full_jr, jr_form, full_jalr,
  jalr_form, full_add, add_form, full_swsp, swsp_form, full_sdsp, sdsp_form,
}
use nullrvsim.Isa.Expand.Defs.{expand2, as_rvc, rvc_start}

c_slli-expands :
    (raw : ℕ) (dec : Decoded)
    → (true, c_slli raw (rvc_start dec)) ≡ as_rvc (decode_rv64 (full_slli raw) dec)
unfolding c_slli full_slli
c_slli-expands raw dec =
    rw (decode_rv64-encode_op_imm {f = slli_form raw} dec (omega arith))
      (ground (arith, imm_shamt-eq raw))

c_lwsp-expands :
    (raw : ℕ) (dec : Decoded)
    → (true, c_load_sp OpCode.load LsWidth.word (imm_lwsp raw) raw (rvc_start dec))
      ≡ as_rvc (decode_rv64 (full_lwsp raw) dec)
unfolding c_load_sp full_lwsp
c_lwsp-expands raw dec =
    rw (decode_rv64-encode_load {f = lwsp_form raw} dec (omega arith))
      (ground (arith, imm_lwsp-eq raw))

c_ldsp-expands :
    (raw : ℕ) (dec : Decoded)
    → (true, c_load_sp OpCode.load LsWidth.dword (imm_ldsp raw) raw (rvc_start dec))
      ≡ as_rvc (decode_rv64 (full_ldsp raw) dec)
unfolding c_load_sp full_ldsp
c_ldsp-expands raw dec =
    rw (decode_rv64-encode_load {f = ldsp_form raw} dec (omega arith))
      (ground (arith, imm_ldsp-eq raw))

c_swsp-expands :
    (raw : ℕ) (dec : Decoded)
    → (true, c_store_sp OpCode.store LsWidth.word (imm_swsp raw) raw (rvc_start dec))
      ≡ as_rvc (decode_rv64 (full_swsp raw) dec)
unfolding c_store_sp full_swsp
c_swsp-expands raw dec =
    rw (decode_rv64-encode_store {f = swsp_form raw} dec (omega arith))
      (ground (arith, imm_swsp-eq raw))

c_sdsp-expands :
    (raw : ℕ) (dec : Decoded)
    → (true, c_store_sp OpCode.store LsWidth.dword (imm_sdsp raw) raw (rvc_start dec))
      ≡ as_rvc (decode_rv64 (full_sdsp raw) dec)
unfolding c_store_sp full_sdsp
c_sdsp-expands raw dec =
    rw (decode_rv64-encode_store {f = sdsp_form raw} dec (omega arith))
      (ground (arith, imm_sdsp-eq raw))

c_jr-expands :
    (raw : ℕ) (dec : Decoded)
    → reg2 raw ≡ 0
    → (true, c_mv_jr raw (rvc_start dec)) ≡ as_rvc (decode_rv64 (full_jr raw) dec)
unfolding c_mv_jr full_jr
c_jr-expands raw dec =
    rw (decode_rv64-encode_jalr {f = jr_form raw} dec (omega arith)) (ground arith)

c_add-expands :
    (raw : ℕ) (dec : Decoded)
    → reg2 raw ≢ 0
    → (true, c_add_jalr raw (rvc_start dec)) ≡ as_rvc (decode_rv64 (full_add raw) dec)
unfolding c_add_jalr full_add
c_add-expands raw dec =
    rw (decode_rv64-encode_op OpCode.op {f = add_form raw} dec (inl refl) (omega arith))
      (ground arith)

c_jalr-expands :
    (raw : ℕ) (dec : Decoded)
    → reg2 raw ≡ 0
    → reg7 raw ≢ 0
    → (true, c_add_jalr raw (rvc_start dec)) ≡ as_rvc (decode_rv64 (full_jalr raw) dec)
unfolding c_add_jalr full_jalr
c_jalr-expands raw dec =
    rw (decode_rv64-encode_jalr {f = jalr_form raw} dec (omega arith)) (ground arith)

pub quadrant2-expand2 :
    (func raw : ℕ) {full : ℕ} (dec : Decoded)
    → expand2 func raw ≡ some full
    → decode_quadrant2 func raw (rvc_start dec) ≡ as_rvc (decode_rv64 full dec)
unfolding expand2 decode_quadrant2
quadrant2-expand2 func raw dec e = ground (
  arith,
  c_slli-expands raw dec,
  c_lwsp-expands raw dec,
  c_ldsp-expands raw dec,
  c_swsp-expands raw dec,
  c_sdsp-expands raw dec,
  c_jr-expands raw dec,
  c_add-expands raw dec,
  c_jalr-expands raw dec,
)
