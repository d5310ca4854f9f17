-- ===== src/Operation/Signed.antt =====
-- The members i64, i32, u32 of the register union, and C++ arithmetic on what they read.
use nullrvsim.Prelude.{
  ℕ, zero, suc, ◌+◌, ◌-◌, ◌/◌, ◌%◌, ◌^◌, Bool, true, false, ltb, ◌==◌, ◌&&◌, if◌then◌else◌,
}

pub data ℤ : Type 0 where
  pos : ℕ → ℤ
  negsuc : ℕ → ℤ

-- A word of `w` bits read as two's complement.
unfoldable pub signed : ℕ → ℕ → ℤ
signed w x = if ltb x (2 ^ (w - 1)) then pos x else negsuc (2 ^ w - 1 - x)

-- Stored back into the union, `i64` again.
unfoldable pub to_bits : ℤ → ℕ
to_bits (pos n) = n % 2 ^ 64
to_bits (negsuc n) = 2 ^ 64 - 1 - n % 2 ^ 64

abbrev pub u32 : ℕ → ℕ
u32 x = x % 2 ^ 32

unfoldable pub i64 : ℕ → ℤ
i64 x = signed 64 x

unfoldable pub i32 : ℕ → ℤ
i32 x = signed 32 (u32 x)

-- An int32_t that is assigned to `i64`: the upper half repeats bit 31.
unfoldable pub widen : ℕ → ℕ
widen x = if ltb (u32 x) (2 ^ 31) then u32 x else u32 x + (2 ^ 64 - 2 ^ 32)

unfoldable pub less : ℤ → ℤ → Bool
less (pos a) (pos b) = ltb a b
less (pos a) (negsuc b) = false
less (negsuc a) (pos b) = true
less (negsuc a) (negsuc b) = ltb b a

-- `>>` on a signed number rounds down.
unfoldable pub shift_right : ℤ → ℕ → ℤ
shift_right (pos a) k = pos (a / 2 ^ k)
shift_right (negsuc a) k = negsuc (a / 2 ^ k)

abbrev pub magnitude : ℤ → ℕ
magnitude (pos a) = a
magnitude (negsuc a) = a + 1

abbrev pub is_negative : ℤ → Bool
is_negative (pos a) = false
is_negative (negsuc a) = true

unfoldable pub negate : ℕ → ℤ
negate zero = pos zero
negate (suc n) = negsuc n

-- `/` rounds toward zero, and `%` has the sign of the dividend; the divisor is not zero.
unfoldable pub quotient : ℤ → ℤ → ℤ
quotient a b =
    let q = magnitude a / magnitude b in
    if is_negative a
    then (if is_negative b then pos q else negate q)
    else if is_negative b
    then negate q
    else pos q

unfoldable pub remainder : ℤ → ℤ → ℤ
remainder a b = let r = magnitude a % magnitude b in if is_negative a then negate r else pos r

-- The quotient that does not fit: the least number of `w` bits by -1.
unfoldable pub overflows : ℕ → ℤ → ℤ → Bool
overflows w a b = is_negative a && is_negative b && magnitude b == 1 && magnitude a == 2 ^ (w - 1)
