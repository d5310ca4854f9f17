-- ===== src/Moesi/Codes/Channel.antt =====
-- The channels of src/cache/moesi/protocal.h.
use nullrvsim.Prelude.{ℕ}

abbrev pub ack : ℕ
ack = 0

abbrev pub resp : ℕ
resp = 1

abbrev pub req : ℕ
req = 2
