-- ===== src/Isa/Codes/BranchOp.antt =====
-- enum class RV64BranchOP3 of src/cpu/isa.h.
use nullrvsim.Prelude.{ℕ}

abbrev pub beq : ℕ
beq = 0

abbrev pub bne : ℕ
bne = 1

abbrev pub blt : ℕ
blt = 4

abbrev pub bge : ℕ
bge = 5

abbrev pub bltu : ℕ
bltu = 6

abbrev pub bgeu : ℕ
bgeu = 7
