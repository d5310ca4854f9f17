-- ===== src/Isa/Immediates/Compressed.antt =====
-- The immediates of the compressed formats as sums of fields.
use nullrvsim.Prelude.{ℕ, ◌+◌, ◌*◌, ◌≡◌, arith}
use nullrvsim.Prelude.Bits.{bit_or-field, zero-bit_or}
use nullrvsim.Isa.Sext.{sext}
use nullrvsim.Isa.Fields.{get_bits}
use nullrvsim.Isa.Compressed.Imm.{
  imm_addi4spn, imm_dword, imm_word, imm_ci, imm_addi16sp, imm_lui, imm_shamt, imm_cj_low, imm_cj,
  imm_cb_low, imm_cb, imm_ldsp, imm_lwsp, imm_sdsp, imm_swsp,
}

pub imm_addi4spn-eq :
    (raw : ℕ)
    → imm_addi4spn raw
      ≡ get_bits raw 5 1 * 8
        + get_bits raw 6 1 * 4
        + get_bits raw 7 4 * 64
        + get_bits raw 11 1 * 16
        + get_bits raw 12 1 * 32
unfolding imm_addi4spn
imm_addi4spn-eq raw = ground (
  arith,
  zero-bit_or (get_bits raw 5 1 * 8),
  bit_or-field 2 1 (get_bits raw 5 1 * 8) (get_bits raw 6 1),
  bit_or-field 6 4 (get_bits raw 5 1 * 8 + get_bits raw 6 1 * 4) (get_bits raw 7 4),
  bit_or-field 4 1 (get_bits raw 5 1 * 8 + get_bits raw 6 1 * 4 + get_bits raw 7 4 * 64)
      (get_bits raw 11 1),
  bit_or-field 5 1
      (get_bits raw 5 1 * 8 + get_bits raw 6 1 * 4 + get_bits raw 7 4 * 64 + get_bits raw 11 1 * 16)
      (get_bits raw 12 1),
)

pub imm_dword-eq : (raw : ℕ) → imm_dword raw ≡ get_bits raw 5 2 * 64 + get_bits raw 10 3 * 8
unfolding imm_dword
imm_dword-eq raw = ground (
  arith,
  zero-bit_or (get_bits raw 5 2 * 64),
  bit_or-field 3 3 (get_bits raw 5 2 * 64) (get_bits raw 10 3),
)

pub imm_word-eq :
    (raw : ℕ) → imm_word raw ≡ get_bits raw 5 1 * 64 + get_bits raw 6 1 * 4 + get_bits raw 10 3 * 8
unfolding imm_word
imm_word-eq raw = ground (
  arith,
  zero-bit_or (get_bits raw 5 1 * 64),
  bit_or-field 2 1 (get_bits raw 5 1 * 64) (get_bits raw 6 1),
  bit_or-field 3 3 (get_bits raw 5 1 * 64 + get_bits raw 6 1 * 4) (get_bits raw 10 3),
)

pub imm_ci-eq : (raw : ℕ) → imm_ci raw ≡ sext 6 (get_bits raw 2 5 + get_bits raw 12 1 * 32)
unfolding imm_ci
imm_ci-eq raw = ground (arith, bit_or-field 5 59 (get_bits raw 2 5) 0x7ff_ffff_ffff_ffff)

pub imm_addi16sp-eq :
    (raw : ℕ)
    → imm_addi16sp raw
      ≡ sext 10 (
          get_bits raw 2 1 * 32
          + get_bits raw 3 2 * 128
          + get_bits raw 5 1 * 64
          + get_bits raw 6 1 * 16
          + get_bits raw 12 1 * 512)
unfolding imm_addi16sp
imm_addi16sp-eq raw =
    let low : ℕ =
      get_bits raw 2 1 * 32
      + get_bits raw 3 2 * 128
      + get_bits raw 5 1 * 64
      + get_bits raw 6 1 * 16 in
    ground (
      arith,
      zero-bit_or (get_bits raw 2 1 * 32),
      bit_or-field 7 2 (get_bits raw 2 1 * 32) (get_bits raw 3 2),
      bit_or-field 6 1 (get_bits raw 2 1 * 32 + get_bits raw 3 2 * 128) (get_bits raw 5 1),
      bit_or-field 4 1 (get_bits raw 2 1 * 32 + get_bits raw 3 2 * 128 + get_bits raw 5 1 * 64)
          (get_bits raw 6 1),
      bit_or-field 9 55 low 0x7fffffffffffff,
    )

pub imm_lui-eq :
    (raw : ℕ) → imm_lui raw ≡ sext 18 (get_bits raw 2 5 * 4096 + get_bits raw 12 1 * 131072)
unfolding imm_lui
imm_lui-eq raw = ground (arith, bit_or-field 17 47 (get_bits raw 2 5 * 4096) 0x7fff_ffff_ffff)

pub imm_shamt-eq : (raw : ℕ) → imm_shamt raw ≡ get_bits raw 2 5 + get_bits raw 12 1 * 32
unfolding imm_shamt
imm_shamt-eq raw =
    bit_or-field 5 1 (get_bits raw 2 5) (get_bits raw 12 1) (omega arith) (omega arith)

pub imm_cj_low-eq :
    (raw : ℕ)
    → imm_cj_low raw
      ≡ get_bits raw 2 1 * 32
        + get_bits raw 3 3 * 2
        + get_bits raw 6 1 * 128
        + get_bits raw 7 1 * 64
        + get_bits raw 8 1 * 1024
        + get_bits raw 9 2 * 256
        + get_bits raw 11 1 * 16
imm_cj_low-eq raw = ground (
  arith,
  zero-bit_or (get_bits raw 2 1 * 32),
  bit_or-field 1 3 (get_bits raw 2 1 * 32) (get_bits raw 3 3),
  bit_or-field 7 1 (get_bits raw 2 1 * 32 + get_bits raw 3 3 * 2) (get_bits raw 6 1),
  bit_or-field 6 1 (get_bits raw 2 1 * 32 + get_bits raw 3 3 * 2 + get_bits raw 6 1 * 128)
      (get_bits raw 7 1),
  bit_or-field 10 1
      (get_bits raw 2 1 * 32
        + get_bits raw 3 3 * 2
        + get_bits raw 6 1 * 128
        + get_bits raw 7 1 * 64)
      (get_bits raw 8 1),
  bit_or-field 8 2
      (get_bits raw 2 1 * 32
        + get_bits raw 3 3 * 2
        + get_bits raw 6 1 * 128
        + get_bits raw 7 1 * 64
        + get_bits raw 8 1 * 1024)
      (get_bits raw 9 2),
  bit_or-field 4 1
      (get_bits raw 2 1 * 32
        + get_bits raw 3 3 * 2
        + get_bits raw 6 1 * 128
        + get_bits raw 7 1 * 64
        + get_bits raw 8 1 * 1024
        + get_bits raw 9 2 * 256)
      (get_bits raw 11 1),
)

pub imm_cj-eq :
    (raw : ℕ)
    → imm_cj raw
      ≡ sext 12 (
          get_bits raw 2 1 * 32
          + get_bits raw 3 3 * 2
          + get_bits raw 6 1 * 128
          + get_bits raw 7 1 * 64
          + get_bits raw 8 1 * 1024
          + get_bits raw 9 2 * 256
          + get_bits raw 11 1 * 16
          + get_bits raw 12 1 * 2048)
unfolding imm_cj
imm_cj-eq raw =
    let low : ℕ =
      get_bits raw 2 1 * 32
      + get_bits raw 3 3 * 2
      + get_bits raw 6 1 * 128
      + get_bits raw 7 1 * 64
      + get_bits raw 8 1 * 1024
      + get_bits raw 9 2 * 256
      + get_bits raw 11 1 * 16 in
    ground (arith, imm_cj_low-eq raw, bit_or-field 11 53 low 0x1fffffffffffff)

pub imm_cb_low-eq :
    (raw : ℕ)
    → imm_cb_low raw
      ≡ get_bits raw 2 1 * 32 + get_bits raw 3 2 * 2 + get_bits raw 5 2 * 64 + get_bits raw 10 2 * 8
imm_cb_low-eq raw = ground (
  arith,
  zero-bit_or (get_bits raw 2 1 * 32),
  bit_or-field 1 2 (get_bits raw 2 1 * 32) (get_bits raw 3 2),
  bit_or-field 6 2 (get_bits raw 2 1 * 32 + get_bits raw 3 2 * 2) (get_bits raw 5 2),
  bit_or-field 3 2 (get_bits raw 2 1 * 32 + get_bits raw 3 2 * 2 + get_bits raw 5 2 * 64)
      (get_bits raw 10 2),
)

pub imm_cb-eq :
    (raw : ℕ)
    → imm_cb raw
      ≡ sext 9 (
          get_bits raw 2 1 * 32
          + get_bits raw 3 2 * 2
          + get_bits raw 5 2 * 64
          + get_bits raw 10 2 * 8
          + get_bits raw 12 1 * 256)
unfolding imm_cb
imm_cb-eq raw =
    let low : ℕ =
      get_bits raw 2 1 * 32
      + get_bits raw 3 2 * 2
      + get_bits raw 5 2 * 64
      + get_bits raw 10 2 * 8 in
    ground (arith, imm_cb_low-eq raw, bit_or-field 8 56 low 0xffffffffffffff)

pub imm_ldsp-eq :
    (raw : ℕ) → imm_ldsp raw ≡ get_bits raw 2 3 * 64 + get_bits raw 5 2 * 8 + get_bits raw 12 1 * 32
unfolding imm_ldsp
imm_ldsp-eq raw = ground (
  arith,
  zero-bit_or (get_bits raw 2 3 * 64),
  bit_or-field 3 2 (get_bits raw 2 3 * 64) (get_bits raw 5 2),
  bit_or-field 5 1 (get_bits raw 2 3 * 64 + get_bits raw 5 2 * 8) (get_bits raw 12 1),
)

pub imm_lwsp-eq :
    (raw : ℕ) → imm_lwsp raw ≡ get_bits raw 2 2 * 64 + get_bits raw 4 3 * 4 + get_bits raw 12 1 * 32
unfolding imm_lwsp
imm_lwsp-eq raw = ground (
  arith,
  zero-bit_or (get_bits raw 2 2 * 64),
  bit_or-field 2 3 (get_bits raw 2 2 * 64) (get_bits raw 4 3),
  bit_or-field 5 1 (get_bits raw 2 2 * 64 + get_bits raw 4 3 * 4) (get_bits raw 12 1),
)

pub imm_sdsp-eq : (raw : ℕ) → imm_sdsp raw ≡ get_bits raw 7 3 * 64 + get_bits raw 10 3 * 8
unfolding imm_sdsp
imm_sdsp-eq raw = ground (
  arith,
  zero-bit_or (get_bits raw 7 3 * 64),
  bit_or-field 3 3 (get_bits raw 7 3 * 64) (get_bits raw 10 3),
)

pub imm_swsp-eq : (raw : ℕ) → imm_swsp raw ≡ get_bits raw 7 2 * 64 + get_bits raw 9 4 * 4
unfolding imm_swsp
imm_swsp-eq raw = ground (
  arith,
  zero-bit_or (get_bits raw 7 2 * 64),
  bit_or-field 2 4 (get_bits raw 7 2 * 64) (get_bits raw 9 4),
)
