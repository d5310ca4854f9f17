-- ===== src/Operation/Integer.antt =====
-- perform_int_op_64 and perform_int_op_32.
use nullrvsim.Prelude.{
  ℕ, ◌+◌, ◌-◌, ◌*◌, ◌/◌, ◌%◌, ◌^◌, bit_and, bit_or, bit_xor, ltb, ◌==◌, if◌then◌else◌,
}
use nullrvsim.Prelude.Words.{add64, sub64, mul64, add32, sub32, mul32}
use nullrvsim.Isa.Codes.IntOp
use nullrvsim.Operation.Signed.{
  to_bits, u32, i64, i32, widen, less, shift_right, quotient, remainder, overflows,
}
use nullrvsim.Operation.Branch.{Outcome, success, devidebyzero, unsupported, trap, of_bool}

-- The cast of an int64_t to 128 bits.
abbrev pub to_128 : ℕ → ℕ
to_128 s = if ltb s (2 ^ 63) then s else s + (2 ^ 128 - 2 ^ 64)

-- tmp_mulh: the product in 128 bits, shifted down by 64.
abbrev pub mulh : ℕ → ℕ → ℕ
mulh s1 s2 = s1 * s2 % 2 ^ 128 / 2 ^ 64

unfoldable pub perform_int_op_64 : ℕ → ℕ → ℕ → Outcome
perform_int_op_64 op s1 s2 =
    if op == IntOp.add
    then success (add64 s1 s2)
    else if op == IntOp.sub
    then success (sub64 s1 s2)
    else if op == IntOp.sll
    then success (s1 * 2 ^ (s2 % 2 ^ 6) % 2 ^ 64)
    else if op == IntOp.slt
    then success (of_bool (less (i64 s1) (i64 s2)))
    else if op == IntOp.sltu
    then success (of_bool (ltb s1 s2))
    else if op == IntOp.xor
    then success (bit_xor s1 s2)
    else if op == IntOp.srl
    then success (s1 / 2 ^ (s2 % 2 ^ 6))
    else if op == IntOp.sra
    then success (to_bits (shift_right (i64 s1) (s2 % 2 ^ 6)))
    else if op == IntOp.or
    then success (bit_or s1 s2)
    else if op == IntOp.and
    then success (bit_and s1 s2)
    else if op == IntOp.mul
    then success (mul64 s1 s2)
    else if op == IntOp.mulh
    then success (mulh (to_128 s1) (to_128 s2))
    else if op == IntOp.mulhsu
    then success (mulh (to_128 s1) s2)
    else if op == IntOp.mulhu
    then success (mulh s1 s2)
    else if op == IntOp.div
    then if s2 == 0
      then devidebyzero
      else if overflows 64 (i64 s1) (i64 s2)
      then trap
      else success (to_bits (quotient (i64 s1) (i64 s2)))
    else if op == IntOp.divu
    then if s2 == 0 then devidebyzero else success (s1 / s2)
    else if op == IntOp.rem
    then if s2 == 0
      then devidebyzero
      else if overflows 64 (i64 s1) (i64 s2)
      then trap
      else success (to_bits (remainder (i64 s1) (i64 s2)))
    else if op == IntOp.remu
    then if s2 == 0 then devidebyzero else success (s1 % s2)
    else unsupported

-- `ret = u32 >> k; if(ret >> 31) ret |= 0xffffffff00000000`
abbrev pub srl_32 : ℕ → ℕ → ℕ
srl_32 s1 s2 =
    let ret = u32 s1 / 2 ^ (s2 % 2 ^ 5) in
    if ret / 2 ^ 31 == 0 then ret else bit_or ret 0xffff_ffff_0000_0000

-- The test for zero reads all 64 bits of the divisor, the division only the low word.
unfoldable pub perform_int_op_32 : ℕ → ℕ → ℕ → Outcome
perform_int_op_32 op s1 s2 =
    if op == IntOp.add
    then success (widen (add32 (u32 s1) (u32 s2)))
    else if op == IntOp.sub
    then success (widen (sub32 (u32 s1) (u32 s2)))
    else if op == IntOp.sll
    then success (widen (u32 s1 * 2 ^ (s2 % 2 ^ 5)))
    else if op == IntOp.srl
    then success (srl_32 s1 s2)
    else if op == IntOp.sra
    then success (to_bits (shift_right (i32 s1) (s2 % 2 ^ 5)))
    else if op == IntOp.mul
    then success (widen (mul32 (u32 s1) (u32 s2)))
    else if op == IntOp.div
    then if s2 == 0
      then devidebyzero
      else if u32 s2 == 0
      then trap
      else if overflows 32 (i32 s1) (i32 s2)
      then trap
      else success (to_bits (quotient (i32 s1) (i32 s2)))
    else if op == IntOp.divu
    then if s2 == 0 then devidebyzero else if u32 s2 == 0 then trap else success (u32 s1 / u32 s2)
    else if op == IntOp.rem
    then if s2 == 0
      then devidebyzero
      else if u32 s2 == 0
      then trap
      else if overflows 32 (i32 s1) (i32 s2)
      then trap
      else success (to_bits (remainder (i32 s1) (i32 s2)))
    else if op == IntOp.remu
    then if s2 == 0 then devidebyzero else if u32 s2 == 0 then trap else success (u32 s1 % u32 s2)
    else unsupported
