-- ===== src/SimpleCc/Codes/Req.antt =====
-- SCCReq
use nullrvsim.Prelude.{ℕ}

abbrev pub idle : ℕ
idle = 0

abbrev pub read : ℕ
read = 1

abbrev pub readu : ℕ
readu = 2

abbrev pub put : ℕ
put = 3
