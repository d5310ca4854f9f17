-- ===== src/Operation/WordResult.antt =====
-- The 32-bit operations: which results are sign-extended words.
use nullrvsim.Prelude.{ℕ, ◌^◌, ◌<◌, ◌≡◌, ◌⊎◌, inl, inr, arith}
use native.Mathlib.Nat.{div-le_self, mod-lt}
use nullrvsim.Isa.Codes.IntOp
use nullrvsim.Operation.Signed.{widen, u32}
use nullrvsim.Operation.Branch.{success}
use nullrvsim.Operation.Integer.{perform_int_op_32}

-- The 32-bit sum, difference, left shift and product are sign-extended words.
pub perform_int_op_32-widen :
    (op s1 s2 : ℕ) {v : ℕ}
    → (op ≡ IntOp.add) ⊎ (op ≡ IntOp.sub) ⊎ (op ≡ IntOp.sll) ⊎ (op ≡ IntOp.mul)
    → perform_int_op_32 op s1 s2 ≡ success v
    → v ≡ widen v
unfolding perform_int_op_32 widen
perform_int_op_32-widen op s1 s2 h e = ground arith

-- DIVUW and REMUW return their unsigned word with an upper half of zeros.
pub perform_int_op_32-divu :
    (op s1 s2 : ℕ) {v : ℕ}
    → (op ≡ IntOp.divu) ⊎ (op ≡ IntOp.remu)
    → perform_int_op_32 op s1 s2 ≡ success v
    → v < 2 ^ 32
unfolding perform_int_op_32
perform_int_op_32-divu op s1 s2 (inl o) e = ground (arith, div-le_self (u32 s1) (u32 s2))
perform_int_op_32-divu op s1 s2 (inr o) e = ground (arith, mod-lt (u32 s1) {m = u32 s2})
