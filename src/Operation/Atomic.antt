-- ===== src/Operation/Atomic.antt =====
-- perform_amo_op: `s1` is the value in memory, `s2` that of the register.
use nullrvsim.Prelude.{ℕ, bit_and, bit_or, ltb, ◌==◌, if◌then◌else◌}
use nullrvsim.Prelude.Words.{add64, add32}
use nullrvsim.Isa.Codes.AmoOp
use nullrvsim.Isa.Codes.LsWidth
use nullrvsim.Operation.Signed.{u32, i64, i32, widen, less}
use nullrvsim.Operation.Branch.{Outcome, success, unsupported}

abbrev pub amo_word : ℕ → ℕ → ℕ → Outcome
amo_word op s1 s2 =
    if op == AmoOp.add
    then success (widen (add32 (u32 s1) (u32 s2)))
    else if op == AmoOp.and
    then success (widen (bit_and (u32 s1) (u32 s2)))
    else if op == AmoOp.or
    then success (widen (bit_or (u32 s1) (u32 s2)))
    else if op == AmoOp.max
    then success (widen (if less (i32 s1) (i32 s2) then s2 else s1))
    else if op == AmoOp.min
    then success (widen (if less (i32 s2) (i32 s1) then s2 else s1))
    else if op == AmoOp.maxu
    then success (if ltb (u32 s1) (u32 s2) then u32 s2 else u32 s1)
    else if op == AmoOp.minu
    then success (if ltb (u32 s2) (u32 s1) then u32 s2 else u32 s1)
    else if op == AmoOp.swap
    then success s2
    else unsupported

abbrev pub amo_dword : ℕ → ℕ → ℕ → Outcome
amo_dword op s1 s2 =
    if op == AmoOp.add
    then success (add64 s1 s2)
    else if op == AmoOp.and
    then success (bit_and s1 s2)
    else if op == AmoOp.or
    then success (bit_or s1 s2)
    else if op == AmoOp.max
    then success (if less (i64 s1) (i64 s2) then s2 else s1)
    else if op == AmoOp.min
    then success (if less (i64 s2) (i64 s1) then s2 else s1)
    else if op == AmoOp.maxu
    then success (if ltb s1 s2 then s2 else s1)
    else if op == AmoOp.minu
    then success (if ltb s2 s1 then s2 else s1)
    else if op == AmoOp.swap
    then success s2
    else unsupported

unfoldable pub perform_amo_op : ℕ → ℕ → ℕ → ℕ → Outcome
perform_amo_op op wid s1 s2 =
    if wid == LsWidth.word
    then amo_word op s1 s2
    else if wid == LsWidth.dword
    then amo_dword op s1 s2
    else unsupported
