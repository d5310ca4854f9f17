-- ===== src/Moesi/Codes/MsgType.antt =====
-- The MSG_ types of src/cache/moesi/protocal.h.
use nullrvsim.Prelude.{ℕ}

abbrev pub invalid : ℕ
invalid = 0

abbrev pub invalid_ack : ℕ
invalid_ack = 1

abbrev pub gets : ℕ
gets = 2

abbrev pub gets_forward : ℕ
gets_forward = 3

abbrev pub getm : ℕ
getm = 4

abbrev pub getm_forward : ℕ
getm_forward = 5

abbrev pub getm_ack : ℕ
getm_ack = 6

abbrev pub gets_resp : ℕ
gets_resp = 7

abbrev pub getm_resp : ℕ
getm_resp = 8

abbrev pub get_resp_mem : ℕ
get_resp_mem = 9

abbrev pub get_ack : ℕ
get_ack = 10

abbrev pub puts : ℕ
puts = 11

abbrev pub putm : ℕ
putm = 12

abbrev pub pute : ℕ
pute = 13

abbrev pub puto : ℕ
puto = 14

abbrev pub put_ack : ℕ
put_ack = 15
