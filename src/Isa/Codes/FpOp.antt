-- ===== src/Isa/Codes/FpOp.antt =====
-- enum class RV64FPOP5 of src/cpu/isa.h.
use nullrvsim.Prelude.{ℕ}

abbrev pub add : ℕ
add = 0x00

abbrev pub sub : ℕ
sub = 0x01

abbrev pub mul : ℕ
mul = 0x02

abbrev pub div : ℕ
div = 0x03

abbrev pub sqrt : ℕ
sqrt = 0x0b

abbrev pub sgnj : ℕ
sgnj = 0x04

abbrev pub min : ℕ
min = 0x05

abbrev pub mv_f2f : ℕ
mv_f2f = 0x08

abbrev pub cmp : ℕ
cmp = 0x14

abbrev pub cvt_f2i : ℕ
cvt_f2i = 0x18

abbrev pub cvt_i2f : ℕ
cvt_i2f = 0x1a

abbrev pub mv_f2i : ℕ
mv_f2i = 0x1c

abbrev pub mv_i2f : ℕ
mv_i2f = 0x1e
