-- ===== src/Operation/Tests.antt =====
-- Operations on a few words, and the theorems at them.
use nullrvsim.Prelude.{ℕ, ◌+◌, ◌-◌, ◌*◌, ◌^◌, ◌<◌, ◌≡◌, ◌⊎◌, refl}
use nullrvsim.Isa.Codes.IntOp
use nullrvsim.Operation.Signed.{widen, i64, signed, to_bits, quotient, overflows, negate}
use nullrvsim.Operation.Branch.{success, devidebyzero, trap}
use nullrvsim.Operation.Integer.{perform_int_op_64, perform_int_op_32}
use nullrvsim.Operation.Division.{perform_int_op_64-divu}

abbrev three : ℕ
three = 3

abbrev minus_one : ℕ
minus_one = 2 ^ 64 - 1

-- -7 / 2 is -3
div-rounds : perform_int_op_64 IntOp.div (2 ^ 64 - 7) 2 ≡ success (2 ^ 64 - 3)
unfolding perform_int_op_64 i64 signed overflows quotient negate to_bits
div-rounds = refl

-- The least number by -1 is undefined in C++; the manual wants the least number.
div-overflows : perform_int_op_64 IntOp.div (2 ^ 63) minus_one ≡ trap
unfolding perform_int_op_64 i64 signed overflows
div-overflows = refl

-- A divisor whose low word is zero passes the test for zero.
div-low_zero : perform_int_op_32 IntOp.divu 5 (2 ^ 32) ≡ trap
unfolding perform_int_op_32
div-low_zero = refl

perform_int_op_64-divu_example :
    ((three ≡ 0)
      × (perform_int_op_64 IntOp.divu 17 3 ≡ devidebyzero)
      × (perform_int_op_64 IntOp.remu 17 3 ≡ devidebyzero))
    ⊎ ((q : ℕ) × (r : ℕ) × (perform_int_op_64 IntOp.divu 17 3 ≡ success q)
        × (perform_int_op_64 IntOp.remu 17 3 ≡ success r)
        × (q * 3 + r ≡ 17)
        × (r < 3))
perform_int_op_64-divu_example = perform_int_op_64-divu 17 3

add-word : perform_int_op_32 IntOp.add 0x7fff_ffff 1 ≡ success 0xffff_ffff_8000_0000
unfolding perform_int_op_32 widen
add-word = refl

-- The manual has the quotient sign-extended, as 0xffffffffffffffff.
divu-word : perform_int_op_32 IntOp.divu 0xffff_ffff 1 ≡ success 0xffff_ffff
unfolding perform_int_op_32
divu-word = refl
