-- ===== src/Operation/Division.antt =====
-- The unsigned divisions.
use nullrvsim.Prelude.{ℕ, ◌+◌, ◌*◌, ◌/◌, ◌%◌, ◌<◌, ◌≡◌, ◌⊎◌, inl, inr, ◌==◌, Bool-cases, arith}
use native.Mathlib.Nat.{div-add-mod', mod-lt}
use nullrvsim.Isa.Codes.IntOp
use nullrvsim.Operation.Branch.{success, devidebyzero}
use nullrvsim.Operation.Integer.{perform_int_op_64}

-- DIVU and REMU report a zero divisor, and otherwise return the quotient and the remainder.
pub perform_int_op_64-divu :
    (s1 s2 : ℕ)
    → ((s2 ≡ 0)
        × (perform_int_op_64 IntOp.divu s1 s2 ≡ devidebyzero)
        × (perform_int_op_64 IntOp.remu s1 s2 ≡ devidebyzero))
      ⊎ ((q : ℕ) × (r : ℕ) × (perform_int_op_64 IntOp.divu s1 s2 ≡ success q)
          × (perform_int_op_64 IntOp.remu s1 s2 ≡ success r)
          × (q * s2 + r ≡ s1)
          × (r < s2))
unfolding perform_int_op_64
perform_int_op_64-divu s1 s2 = elim (Bool-cases (s2 == 0)) [
  | inl e ↦ inl (ground arith, rw e, rw e)
  | inr e ↦ inr (s1 / s2, s1 % s2, rw e, rw e, div-add-mod' s1 s2, mod-lt s1 (ground arith))
]
