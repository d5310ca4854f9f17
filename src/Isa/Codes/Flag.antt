-- ===== src/Isa/Codes/Flag.antt =====
-- The RVINSTFLAG_ bits of src/cpu/isa.h.
use nullrvsim.Prelude.{ℕ}

abbrev pub rvc : ℕ
rvc = 1

abbrev pub unique : ℕ
unique = 2

abbrev pub fence : ℕ
fence = 4

abbrev pub fencei : ℕ
fencei = 8

abbrev pub fencetso : ℕ
fencetso = 16

abbrev pub pause : ℕ
pause = 0x100

abbrev pub ecall : ℕ
ecall = 0x200

abbrev pub ebreak : ℕ
ebreak = 0x400

abbrev pub s1_int : ℕ
s1_int = 0x1_0000

abbrev pub s1_fp : ℕ
s1_fp = 0x2_0000

abbrev pub s2_int : ℕ
s2_int = 0x4_0000

abbrev pub s2_fp : ℕ
s2_fp = 0x8_0000

abbrev pub s3_fp : ℕ
s3_fp = 0x20_0000

abbrev pub rd_int : ℕ
rd_int = 0x40_0000

abbrev pub rd_fp : ℕ
rd_fp = 0x80_0000
