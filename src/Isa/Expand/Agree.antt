-- ===== src/Isa/Expand/Agree.antt =====
-- The decoder of compressed instructions against the table of expansions.
use nullrvsim.Prelude.{ℕ, ◌≡◌, ◌∙◌, true, some, arith}
use nullrvsim.Isa.Decoded.{Decoded, clear}
use nullrvsim.Isa.Decode.{decode_rv64, is_rvc}
use nullrvsim.Isa.Compressed.{decode_rv64c}
use nullrvsim.Isa.Fields.{get_bits}
use nullrvsim.Isa.Expand.Defs.{expand, as_rvc}
use nullrvsim.Isa.Expand.Quadrant0.{quadrant0-expand0}
use nullrvsim.Isa.Expand.Quadrant1.{quadrant1-expand1}
use nullrvsim.Isa.Expand.Quadrant2.{quadrant2-expand2}

decode_rv64c-expand :
    (raw : ℕ) {full : ℕ} (dec : Decoded)
    → expand raw ≡ some full
    → decode_rv64c raw (clear dec) ≡ as_rvc (decode_rv64 full dec)
unfolding expand decode_rv64c
decode_rv64c-expand raw {full} dec e = ground (
  arith,
  quadrant0-expand0 (get_bits raw 13 3) raw {full = full} dec,
  quadrant1-expand1 (get_bits raw 13 3) raw {full = full} dec,
  quadrant2-expand2 (get_bits raw 13 3) raw {full = full} dec,
)

compressed : (raw : ℕ) {full : ℕ} → expand raw ≡ some full → is_rvc raw ≡ true
unfolding expand
compressed raw e = ground arith

decode_rv64-is_rvc :
    (raw : ℕ) (dec : Decoded)
    → is_rvc raw ≡ true
    → decode_rv64 raw dec ≡ decode_rv64c raw (clear dec)
unfolding decode_rv64
decode_rv64-is_rvc raw dec h = rw h

-- A compressed instruction of the table of expansions is decoded as its expansion: the same opcode,
-- operation, registers and immediate, and the same flags with the one for compressed added. The table has
-- the expansions of the manual but those of C.LI, C.MV, C.EBREAK, C.FLD, C.FSD, C.FLDSP and C.FSDSP, which
-- the code decodes in other forms, and of C.LUI and C.SLLI with the target x0.
pub decode_rv64-expand :
    (raw : ℕ) {full : ℕ} (dec : Decoded)
    → expand raw ≡ some full
    → decode_rv64 raw dec ≡ as_rvc (decode_rv64 full dec)
decode_rv64-expand raw dec e =
    decode_rv64-is_rvc raw dec (compressed raw e) ∙ decode_rv64c-expand raw dec e
