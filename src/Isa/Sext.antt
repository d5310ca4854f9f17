-- ===== src/Isa/Sext.antt =====
-- Sign extension as the RISC-V manual describes it.
use nullrvsim.Prelude.{ℕ, ◌+◌, ◌-◌, ◌^◌, ltb, if◌then◌else◌}

-- The 64-bit pattern of the signed number that the `w` low bits of `v` stand for.
abbrev pub sext : ℕ → ℕ → ℕ
sext w v = if ltb v (2 ^ (w - 1)) then v else v + (2 ^ 64 - 2 ^ w)
