-- ===== src/Prelude/Bits.antt =====
-- Fields of machine words: shifts and masks as arithmetic, and the laws that turn `|` and `&`
-- into sums and remainders.
use Prim.Native.Nat.{digits, bit_and-bitwise, bit_or-bitwise, min, max, bit_and, bit_or}
use Prim.Native.Nat.{ℕ, zero, suc, ◌+◌, ◌-◌, ◌*◌, ◌/◌, ◌%◌, ◌^◌, ◌≤◌, ◌<◌}
use mathlib.Core.Path.{◌≡◌, refl, sym, ap, ◌∙◌}
use native.Mathlib.Omega.{arith}
use native.Mathlib.Nat.{pow-suc, one-le-pow, mul-one, div-one, div-add-mod', div-div-eq-div-mul}

-- `x >> k`, `x << k` and the low `k` bits of `x`
abbrev pub shr : ℕ → ℕ → ℕ
shr x k = x / 2 ^ k

abbrev pub shl : ℕ → ℕ → ℕ
shl x k = x * 2 ^ k

abbrev pub low_bits : ℕ → ℕ → ℕ
low_bits x k = x % 2 ^ k

-- The lowest digit of `|` and of `&`, from the recursion on digits that the operations stand for.
abbrev or_rec : ℕ → ℕ → ℕ → ℕ
or_rec n a b = digits (λ y. y) max n a b

or_rec-enough : (n m a b : ℕ) → a ≤ n → a ≤ m → or_rec n a b ≡ or_rec m a b
or_rec-enough n m zero b p q = or_zero n ∙ sym (or_zero m)
  where
    or_zero : (k : ℕ) → or_rec k 0 b ≡ b
    or_zero zero = refl
    or_zero (suc k) = refl
or_rec-enough zero m (suc a) b p q = absurd (omega arith)
or_rec-enough (suc n) zero (suc a) b p q = absurd (omega arith)
or_rec-enough (suc n) (suc m) (suc a) b p q =
    ap (λ t. t * 2 + max (suc a % 2) (b % 2))
      (or_rec-enough n m (suc a / 2) (b / 2) (omega arith) (omega arith))

bit_or-digit : (a b : ℕ) → bit_or a b ≡ bit_or (a / 2) (b / 2) * 2 + max (a % 2) (b % 2)
bit_or-digit zero b = omega (arith, bit_or-bitwise 0 b, bit_or-bitwise 0 (b / 2))
bit_or-digit (suc a) b = omega (
  arith,
  bit_or-bitwise (suc a) b,
  bit_or-bitwise (suc a / 2) (b / 2),
  or_rec-enough a (suc a / 2) (suc a / 2) (b / 2) (omega arith) (omega arith),
)

abbrev and_rec : ℕ → ℕ → ℕ → ℕ
and_rec n a b = digits (λ y. zero) min n a b

and_rec-enough : (n m a b : ℕ) → a ≤ n → a ≤ m → and_rec n a b ≡ and_rec m a b
and_rec-enough n m zero b p q = and_zero n ∙ sym (and_zero m)
  where
    and_zero : (k : ℕ) → and_rec k 0 b ≡ 0
    and_zero zero = refl
    and_zero (suc k) = refl
and_rec-enough zero m (suc a) b p q = absurd (omega arith)
and_rec-enough (suc n) zero (suc a) b p q = absurd (omega arith)
and_rec-enough (suc n) (suc m) (suc a) b p q =
    ap (λ t. t * 2 + min (suc a % 2) (b % 2))
      (and_rec-enough n m (suc a / 2) (b / 2) (omega arith) (omega arith))

bit_and-digit : (a b : ℕ) → bit_and a b ≡ bit_and (a / 2) (b / 2) * 2 + min (a % 2) (b % 2)
bit_and-digit zero b = omega (arith, bit_and-bitwise 0 b, bit_and-bitwise 0 (b / 2))
bit_and-digit (suc a) b = omega (
  arith,
  bit_and-bitwise (suc a) b,
  bit_and-bitwise (suc a / 2) (b / 2),
  and_rec-enough a (suc a / 2) (suc a / 2) (b / 2) (omega arith) (omega arith),
)

pub zero-bit_or : (b : ℕ) → bit_or 0 b ≡ b
zero-bit_or b = bit_or-bitwise 0 b

pub zero-bit_and : (b : ℕ) → bit_and 0 b ≡ 0
zero-bit_and b = bit_and-bitwise 0 b

bit_or-zero_below : (n a : ℕ) → a ≤ n → bit_or a 0 ≡ a
bit_or-zero_below n zero h = zero-bit_or 0
bit_or-zero_below zero (suc a) h = absurd (omega arith)
bit_or-zero_below (suc n) (suc a) h =
    omega (arith, bit_or-digit (suc a) 0, bit_or-zero_below n (suc a / 2) (omega arith))

pub bit_or-zero : (a : ℕ) → bit_or a 0 ≡ a
bit_or-zero a = bit_or-zero_below a a (omega arith)

bit_and-zero_below : (n a : ℕ) → a ≤ n → bit_and a 0 ≡ 0
bit_and-zero_below n zero h = zero-bit_and 0
bit_and-zero_below zero (suc a) h = absurd (omega arith)
bit_and-zero_below (suc n) (suc a) h =
    omega (arith, bit_and-digit (suc a) 0, bit_and-zero_below n (suc a / 2) (omega arith))

pub bit_and-zero : (a : ℕ) → bit_and a 0 ≡ 0
bit_and-zero a = bit_and-zero_below a a (omega arith)

pow-double : (k x : ℕ) → x * 2 ^ suc k ≡ (x * 2 ^ k) * 2
pow-double k x = omega (arith, ap (λ (t : ℕ). x * t) (pow-suc 2 k))

pub div-halves : (k a : ℕ) → a / 2 ^ suc k ≡ a / 2 / 2 ^ k
div-halves k a =
    ap (λ (t : ℕ). a / t) (omega (arith, pow-suc 2 k)) ∙ sym (div-div-eq-div-mul a 2 (2 ^ k))

mod-halves : (k a : ℕ) → a % 2 ^ suc k ≡ (a / 2) % 2 ^ k * 2 + a % 2
mod-halves k a = omega (
  arith,
  div-add-mod' a (2 ^ suc k),
  div-add-mod' (a / 2) (2 ^ k),
  div-halves k a,
  pow-double k (a / 2 ^ suc k),
  ap (λ (t : ℕ). t * 2 ^ k) (div-halves k a),
)

-- A mask keeps the bits that it covers: `a & (m << k)` is `((a >> k) & m) << k`.
pub bit_and-shl : (k a m : ℕ) → bit_and a (m * 2 ^ k) ≡ bit_and (a / 2 ^ k) m * 2 ^ k
bit_and-shl zero a m = rw (mul-one, mul-one, div-one)
bit_and-shl (suc k) a m = ground (
  arith,
  bit_and-digit a (m * 2 ^ suc k),
  pow-double k m,
  pow-double k (bit_and (a / 2 / 2 ^ k) m),
  div-halves k a,
  bit_and-shl k (a / 2) m,
)

-- A mask of `k` ones is the remainder by `2 ^ k`.
pub bit_and-mask : (k a : ℕ) → bit_and a (2 ^ k - 1) ≡ a % 2 ^ k
bit_and-mask zero a = omega (arith, bit_and-zero a)
bit_and-mask (suc k) a = ground (
  arith,
  bit_and-digit a (2 ^ suc k - 1),
  pow-suc 2 k,
  one-le-pow k 2,
  bit_and-mask k (a / 2),
  mod-halves k a,
)

bit_or-low : (j a m : ℕ) → a % 2 ^ j ≡ 0 → m < 2 ^ j → bit_or a m ≡ a + m
bit_or-low zero a m free h = ground (arith, bit_or-zero a)
bit_or-low (suc j) a m free h =
    ground (arith, bit_or-digit a m, mod-halves j a, pow-suc 2 j, bit_or-low j (a / 2) (m / 2))

-- A field that is written where the word is still zero is added: `a | (m << k)`, if the `j` bits of
-- `a` from `k` on are clear and `m` fits them.
pub bit_or-field :
    (k j a m : ℕ) → a / 2 ^ k % 2 ^ j ≡ 0 → m < 2 ^ j → bit_or a (m * 2 ^ k) ≡ a + m * 2 ^ k
bit_or-field zero j a m free h =
    rw mul-one (bit_or-low j a m (ap (λ (t : ℕ). t % 2 ^ j) (sym (div-one a)) ∙ free) h)
bit_or-field (suc k) j a m free h = ground (
  arith,
  bit_or-digit a (m * 2 ^ suc k),
  pow-double k m,
  bit_or-field k j (a / 2) m (ap (λ (t : ℕ). t % 2 ^ j) (sym (div-halves k a)) ∙ free) h,
)
