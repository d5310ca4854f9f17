-- ===== src/SimpleCc/Codes/Snoop.antt =====
-- SCCSnoop
use nullrvsim.Prelude.{ℕ}

abbrev pub idle : ℕ
idle = 0

abbrev pub share : ℕ
share = 1

abbrev pub uniq : ℕ
uniq = 2

abbrev pub inval : ℕ
inval = 3
