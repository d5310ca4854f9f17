-- ===== src/Moesi/Codes/LineState.antt =====
-- The CC_ states of src/cache/moesi/protocal.h.
use nullrvsim.Prelude.{ℕ}

abbrev pub invalid : ℕ
invalid = 0

abbrev pub exclusive : ℕ
exclusive = 1

abbrev pub shared : ℕ
shared = 2

abbrev pub modified : ℕ
modified = 3

abbrev pub owned : ℕ
owned = 4
