-- ===== src/Moesi/Codes/Pending.antt =====
-- The MSHR_ states of src/cache/moesi/protocal.h.
use nullrvsim.Prelude.{ℕ}

abbrev pub itoi : ℕ
itoi = 1

abbrev pub itos : ℕ
itos = 2

abbrev pub itom : ℕ
itom = 3

abbrev pub stom : ℕ
stom = 4

abbrev pub mtoi : ℕ
mtoi = 5

abbrev pub stoi : ℕ
stoi = 6

abbrev pub etoi : ℕ
etoi = 7

abbrev pub otom : ℕ
otom = 8

abbrev pub otoi : ℕ
otoi = 9
