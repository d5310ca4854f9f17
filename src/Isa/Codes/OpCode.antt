-- ===== src/Isa/Codes/OpCode.antt =====
-- enum class RV64OPCode of src/cpu/isa.h: the low seven bits of an instruction.
use nullrvsim.Prelude.{ℕ}

abbrev pub load : ℕ
load = 0x03

abbrev pub load_fp : ℕ
load_fp = 0x07

abbrev pub misc_mem : ℕ
misc_mem = 0x0f

abbrev pub op_imm : ℕ
op_imm = 0x13

abbrev pub auipc : ℕ
auipc = 0x17

abbrev pub op_imm32 : ℕ
op_imm32 = 0x1b

abbrev pub store : ℕ
store = 0x23

abbrev pub store_fp : ℕ
store_fp = 0x27

abbrev pub amo : ℕ
amo = 0x2f

abbrev pub op : ℕ
op = 0x33

abbrev pub lui : ℕ
lui = 0x37

abbrev pub op32 : ℕ
op32 = 0x3b

abbrev pub madd : ℕ
madd = 0x43

abbrev pub msub : ℕ
msub = 0x47

abbrev pub nmsub : ℕ
nmsub = 0x4b

abbrev pub nmadd : ℕ
nmadd = 0x4f

abbrev pub op_fp : ℕ
op_fp = 0x53

abbrev pub branch : ℕ
branch = 0x63

abbrev pub jalr : ℕ
jalr = 0x67

abbrev pub jal : ℕ
jal = 0x6f

abbrev pub system : ℕ
system = 0x73

abbrev pub nop : ℕ
nop = 0
