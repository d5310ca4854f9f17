-- ===== src/Isa/Codes/IntOp.antt =====
-- enum class RV64IntOP73 of src/cpu/isa.h: funct3 below funct7.
use nullrvsim.Prelude.{ℕ}

abbrev pub add : ℕ
add = 0x000

abbrev pub sub : ℕ
sub = 0x100

abbrev pub sll : ℕ
sll = 0x001

abbrev pub slt : ℕ
slt = 0x002

abbrev pub sltu : ℕ
sltu = 0x003

abbrev pub xor : ℕ
xor = 0x004

abbrev pub srl : ℕ
srl = 0x005

abbrev pub sra : ℕ
sra = 0x105

abbrev pub or : ℕ
or = 0x006

abbrev pub and : ℕ
and = 0x007

abbrev pub mul : ℕ
mul = 0x008

abbrev pub mulh : ℕ
mulh = 0x009

abbrev pub mulhsu : ℕ
mulhsu = 0x00a

abbrev pub mulhu : ℕ
mulhu = 0x00b

abbrev pub div : ℕ
div = 0x00c

abbrev pub divu : ℕ
divu = 0x00d

abbrev pub rem : ℕ
rem = 0x00e

abbrev pub remu : ℕ
remu = 0x00f
