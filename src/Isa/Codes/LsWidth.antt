-- ===== src/Isa/Codes/LsWidth.antt =====
-- enum class RV64LSWidth of src/cpu/amo.h.
use nullrvsim.Prelude.{ℕ}

abbrev pub word : ℕ
word = 2

abbrev pub dword : ℕ
dword = 3
