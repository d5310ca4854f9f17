-- ===== src/Isa/Expand/Quadrant1.antt =====
-- Quadrant 1 decodes as its expansion.
use nullrvsim.Prelude.{ℕ, ◌<◌, ◌≡◌, true, some, arith, refl, inl, inr}
use nullrvsim.Isa.Codes.OpCode
use nullrvsim.Isa.Codes.IntOp
use nullrvsim.Isa.Decoded.{Decoded}
use nullrvsim.Isa.Decode.{decode_rv64}
use nullrvsim.Isa.Compressed.Imm.{imm_ci, imm_addi16sp, imm_lui, imm_shamt}
use nullrvsim.Isa.Compressed.Quadrant1.{
  decode_quadrant1, c_op_imm, c_set, c_op_regs, c_op32, c_op, c_arith, c_j, c_branch, rd_full,
  rd_rs1_short,
}
use nullrvsim.Isa.Immediates.Compressed.{
  imm_ci-eq, imm_addi16sp-eq, imm_lui-eq, imm_shamt-eq, imm_cj-eq, imm_cb-eq,
}
use nullrvsim.Isa.RoundTrip.IForms.{decode_rv64-encode_op_imm, decode_rv64-encode_op_imm32}
use nullrvsim.Isa.RoundTrip.RForms.{decode_rv64-encode_op}
use nullrvsim.Isa.RoundTrip.SForms.{decode_rv64-encode_branch, IsSForm}
use nullrvsim.Isa.RoundTrip.UForms.{decode_rv64-encode_lui, decode_rv64-encode_jal}
use nullrvsim.Isa.Expand.Forms.{
  full_addi, addi_form, full_addiw, addiw_form, full_addi16sp, addi16sp_form, full_lui, full_srli,
  srli_form, full_srai, srai_form, full_andi, andi_form, full_op, op_form, full_j, full_branch,
  branch_form, widen, imm6, j_offset,
}
use nullrvsim.Isa.Fields.{get_bits}
use nullrvsim.Isa.Expand.Defs.{expand1, expand_arith, as_rvc, rvc_start}

c_addi-expands :
    (raw : ℕ) (dec : Decoded)
    → (true, c_op_imm OpCode.op_imm IntOp.add (rd_full raw) (imm_ci raw) (rvc_start dec))
      ≡ as_rvc (decode_rv64 (full_addi raw) dec)
unfolding c_op_imm full_addi
c_addi-expands raw dec =
    rw (decode_rv64-encode_op_imm {f = addi_form raw} dec (ground arith))
      (ground (arith, imm_ci-eq raw))

c_addiw-expands :
    (raw : ℕ) (dec : Decoded)
    → (true, c_op_imm OpCode.op_imm32 IntOp.add (rd_full raw) (imm_ci raw) (rvc_start dec))
      ≡ as_rvc (decode_rv64 (full_addiw raw) dec)
unfolding c_op_imm full_addiw
c_addiw-expands raw dec =
    rw (decode_rv64-encode_op_imm32 {f = addiw_form raw} dec (ground arith))
      (ground (arith, imm_ci-eq raw))

c_addi16sp-expands :
    (raw : ℕ) (dec : Decoded)
    → (true, c_op_imm OpCode.op_imm IntOp.add 2 (imm_addi16sp raw) (rvc_start dec))
      ≡ as_rvc (decode_rv64 (full_addi16sp raw) dec)
unfolding c_op_imm full_addi16sp
c_addi16sp-expands raw dec =
    rw (decode_rv64-encode_op_imm {f = addi16sp_form raw} dec (ground arith))
      (ground (arith, imm_addi16sp-eq raw))

c_lui-expands :
    (raw : ℕ) (dec : Decoded)
    → (true, c_set (imm_lui raw) raw (rvc_start dec)) ≡ as_rvc (decode_rv64 (full_lui raw) dec)
unfolding c_set full_lui
c_lui-expands raw dec =
    rw
      (decode_rv64-encode_lui (get_bits raw 7 5) (widen 20 6 (imm6 raw)) dec (omega arith)
        (ground arith))
      (ground (arith, imm_lui-eq raw))

c_srli-expands :
    (raw : ℕ) (dec : Decoded)
    → (true, c_op_imm OpCode.op_imm IntOp.srl (rd_rs1_short raw) (imm_shamt raw) (rvc_start dec))
      ≡ as_rvc (decode_rv64 (full_srli raw) dec)
unfolding c_op_imm full_srli
c_srli-expands raw dec =
    rw (decode_rv64-encode_op_imm {f = srli_form raw} dec (omega arith))
      (ground (arith, imm_shamt-eq raw))

c_srai-expands :
    (raw : ℕ) (dec : Decoded)
    → (true, c_op_imm OpCode.op_imm IntOp.sra (rd_rs1_short raw) (imm_shamt raw) (rvc_start dec))
      ≡ as_rvc (decode_rv64 (full_srai raw) dec)
unfolding c_op_imm full_srai
c_srai-expands raw dec =
    rw (decode_rv64-encode_op_imm {f = srai_form raw} dec (omega arith))
      (ground (arith, imm_shamt-eq raw))

c_andi-expands :
    (raw : ℕ) (dec : Decoded)
    → (true, c_op_imm OpCode.op_imm IntOp.and (rd_rs1_short raw) (imm_ci raw) (rvc_start dec))
      ≡ as_rvc (decode_rv64 (full_andi raw) dec)
unfolding c_op_imm full_andi
c_andi-expands raw dec =
    rw (decode_rv64-encode_op_imm {f = andi_form raw} dec (ground arith))
      (ground (arith, imm_ci-eq raw))

-- C.SUBW and C.ADDW
c_op32-expands :
    (raw : ℕ) (dec : Decoded)
    → (c_op32 0 raw (rvc_start dec) ≡ as_rvc (decode_rv64 (full_op OpCode.op32 0 32 raw) dec))
      × (c_op32 1 raw (rvc_start dec) ≡ as_rvc (decode_rv64 (full_op OpCode.op32 0 0 raw) dec))
unfolding c_op32 c_op_regs full_op
c_op32-expands raw dec = (
  rw (decode_rv64-encode_op OpCode.op32 {f = op_form 0 32 raw} dec (inr refl) (omega arith)),
  rw (decode_rv64-encode_op OpCode.op32 {f = op_form 0 0 raw} dec (inr refl) (omega arith)),
)

c_op-expands :
    (raw : ℕ) (dec : Decoded)
    → (c_op 0 raw (rvc_start dec) ≡ as_rvc (decode_rv64 (full_op OpCode.op 0 32 raw) dec))
      × (c_op 1 raw (rvc_start dec) ≡ as_rvc (decode_rv64 (full_op OpCode.op 4 0 raw) dec))
      × (c_op 2 raw (rvc_start dec) ≡ as_rvc (decode_rv64 (full_op OpCode.op 6 0 raw) dec))
      × (c_op 3 raw (rvc_start dec) ≡ as_rvc (decode_rv64 (full_op OpCode.op 7 0 raw) dec))
unfolding c_op c_op_regs full_op
c_op-expands raw dec = (
  rw (decode_rv64-encode_op OpCode.op {f = op_form 0 32 raw} dec (inl refl) (omega arith)),
  rw (decode_rv64-encode_op OpCode.op {f = op_form 4 0 raw} dec (inl refl) (omega arith)),
  rw (decode_rv64-encode_op OpCode.op {f = op_form 6 0 raw} dec (inl refl) (omega arith)),
  rw (decode_rv64-encode_op OpCode.op {f = op_form 7 0 raw} dec (inl refl) (omega arith)),
)

c_j-expands :
    (raw : ℕ) (dec : Decoded)
    → (true, c_j raw (rvc_start dec)) ≡ as_rvc (decode_rv64 (full_j raw) dec)
unfolding c_j full_j
c_j-expands raw dec =
    rw
      (decode_rv64-encode_jal 0 (widen 21 12 (j_offset raw)) dec (omega arith) (ground arith)
        (ground arith))
      (ground (arith, imm_cj-eq raw))

c_branch-expands :
    (funct3 raw : ℕ) (dec : Decoded)
    → funct3 < 8
    → (true, c_branch funct3 raw (rvc_start dec))
      ≡ as_rvc (decode_rv64 (full_branch funct3 raw) dec)
unfolding c_branch full_branch
c_branch-expands funct3 raw dec h =
    rw (decode_rv64-encode_branch {f = branch_form funct3 raw} dec fits (ground arith))
      (ground (arith, imm_cb-eq raw))
  where
    fits : IsSForm 13 (branch_form funct3 raw)
    fits = record {
      funct3_fits = h;
      rs1_fits = omega arith;
      rs2_fits = omega arith;
      imm_fits = ground arith;
    }

c_arith-expands :
    (raw : ℕ) {full : ℕ} (dec : Decoded)
    → expand_arith raw ≡ some full
    → c_arith raw (rvc_start dec) ≡ as_rvc (decode_rv64 full dec)
unfolding expand_arith c_arith
c_arith-expands raw dec e = ground (
  arith,
  c_srli-expands raw dec,
  c_srai-expands raw dec,
  c_andi-expands raw dec,
  c_op32-expands raw dec,
  c_op-expands raw dec,
)

pub quadrant1-expand1 :
    (func raw : ℕ) {full : ℕ} (dec : Decoded)
    → expand1 func raw ≡ some full
    → decode_quadrant1 func raw (rvc_start dec) ≡ as_rvc (decode_rv64 full dec)
unfolding expand1 decode_quadrant1
quadrant1-expand1 func raw {full} dec e = ground (
  arith,
  c_addi-expands raw dec,
  c_addiw-expands raw dec,
  c_addi16sp-expands raw dec,
  c_lui-expands raw dec,
  c_arith-expands raw {full = full} dec,
  c_j-expands raw dec,
  c_branch-expands 0 raw dec,
  c_branch-expands 1 raw dec,
)
