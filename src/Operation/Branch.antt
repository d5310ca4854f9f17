-- ===== src/Operation/Branch.antt =====
-- perform_branch_op_64, and what a perform function may return.
use nullrvsim.Prelude.{ℕ, Bool, ltb, ◌==◌, not, if◌then◌else◌}
use nullrvsim.Isa.Codes.BranchOp
use nullrvsim.Operation.Signed.{i64, less}

-- SimError, with the value written through `out`; `trap` is the undefined division of C++, which
-- ends the simulator.
pub data Outcome : Type 0 where
  success : ℕ → Outcome
  devidebyzero : Outcome
  unsupported : Outcome
  trap : Outcome

abbrev pub of_bool : Bool → ℕ
of_bool b = if b then 1 else 0

unfoldable pub perform_branch_op_64 : ℕ → ℕ → ℕ → Outcome
perform_branch_op_64 op s1 s2 =
    if op == BranchOp.beq
    then success (of_bool (s1 == s2))
    else if op == BranchOp.bne
    then success (of_bool (not (s1 == s2)))
    else if op == BranchOp.blt
    then success (of_bool (less (i64 s1) (i64 s2)))
    else if op == BranchOp.bge
    then success (of_bool (not (less (i64 s1) (i64 s2))))
    else if op == BranchOp.bltu
    then success (of_bool (ltb s1 s2))
    else if op == BranchOp.bgeu
    then success (of_bool (not (ltb s1 s2)))
    else unsupported
