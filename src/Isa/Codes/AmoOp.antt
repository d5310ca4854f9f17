-- ===== src/Isa/Codes/AmoOp.antt =====
-- enum class RV64AMOOP5 of src/cpu/amo.h.
use nullrvsim.Prelude.{ℕ}

abbrev pub add : ℕ
add = 0x00

abbrev pub swap : ℕ
swap = 0x01

abbrev pub lr : ℕ
lr = 0x02

abbrev pub sc : ℕ
sc = 0x03

abbrev pub and : ℕ
and = 0x0c

abbrev pub or : ℕ
or = 0x08

abbrev pub min : ℕ
min = 0x10

abbrev pub max : ℕ
max = 0x14

abbrev pub minu : ℕ
minu = 0x18

abbrev pub maxu : ℕ
maxu = 0x1c
