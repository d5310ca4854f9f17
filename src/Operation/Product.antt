-- ===== src/Operation/Product.antt =====
-- The products: the high and the low word together are the whole product, signed or not.
use nullrvsim.Prelude.{
  ℕ, ap, ◌≤◌, Bool-cases, inl, inr, ◌+◌, ◌-◌, ◌*◌, ◌%◌, ◌^◌, ◌<◌, ◌≡◌, refl, ltb, if◌then◌else◌,
  arith,
}
use nullrvsim.Prelude.Words.{mul64}
use native.Mathlib.Nat.{mul-le-mul}
use nullrvsim.Isa.Codes.IntOp
use nullrvsim.Operation.Branch.{success}
use nullrvsim.Operation.Integer.{perform_int_op_64, mulh, to_128}

fits : (s1 s2 : ℕ) → s1 < 2 ^ 64 → s2 < 2 ^ 64 → s1 * s2 < 2 ^ 128
fits s1 s2 h1 h2 =
    let le : s1 * s2 ≤ (2 ^ 64 - 1) * (2 ^ 64 - 1) =
      mul-le-mul {n₂ = 2 ^ 64 - 1} {m₂ = 2 ^ 64 - 1} (omega arith) (omega arith) in
    omega arith

-- MULHU and MUL are the two words of the product.
pub perform_int_op_64-mulhu :
    (s1 s2 : ℕ)
    → s1 < 2 ^ 64
    → s2 < 2 ^ 64
    → (high : ℕ) × (low : ℕ) × (perform_int_op_64 IntOp.mulhu s1 s2 ≡ success high)
      × (perform_int_op_64 IntOp.mul s1 s2 ≡ success low)
      × (high < 2 ^ 64)
      × (low < 2 ^ 64)
      × (high * 2 ^ 64 + low ≡ s1 * s2)
unfolding perform_int_op_64
perform_int_op_64-mulhu s1 s2 h1 h2 =
    (mulh s1 s2, mul64 s1 s2, refl, refl, omega arith, omega arith, omega (arith, fits s1 s2 h1 h2))

-- What a negative factor takes from the high word of the unsigned product.
abbrev pub correction : ℕ → ℕ → ℕ
correction s other = if ltb s (2 ^ 63) then 0 else other

high-one :
    (s1 s2 : ℕ)
    → s1 < 2 ^ 64
    → s2 < 2 ^ 64
    → mulh (to_128 s1) s2 ≡ (mulh s1 s2 + 2 ^ 65 - correction s1 s2) % 2 ^ 64
high-one s1 s2 h1 h2 = elim (Bool-cases (ltb s1 (2 ^ 63))) [
  | inl a ↦ rw a (omega (arith, fits s1 s2 h1 h2))
  | inr a ↦ rw a (omega (arith, fits s1 s2 h1 h2))
]

high-both :
    (s1 s2 : ℕ)
    → s1 < 2 ^ 64
    → s2 < 2 ^ 64
    → mulh (to_128 s1) (to_128 s2)
      ≡ (mulh s1 s2 + 2 ^ 65 - correction s1 s2 - correction s2 s1) % 2 ^ 64
high-both s1 s2 h1 h2 = elim (Bool-cases (ltb s1 (2 ^ 63))) [
  | inl a ↦ elim (Bool-cases (ltb s2 (2 ^ 63))) [
    | inl b ↦ rw (a, b) (omega (arith, fits s1 s2 h1 h2))
    | inr b ↦ rw (a, b) (omega (arith, fits s1 s2 h1 h2))
  ]
  | inr a ↦ elim (Bool-cases (ltb s2 (2 ^ 63))) [
    | inl b ↦ rw (a, b) (omega (arith, fits s1 s2 h1 h2))
    | inr b ↦ rw (a, b) (omega (arith, fits s1 s2 h1 h2))
  ]
]

-- MULH and MULHSU are the high word of the unsigned product, less the other factor for each
-- negative one.
pub perform_int_op_64-mulh :
    (s1 s2 : ℕ)
    → s1 < 2 ^ 64
    → s2 < 2 ^ 64
    → (perform_int_op_64 IntOp.mulh s1 s2
        ≡ success ((mulh s1 s2 + 2 ^ 65 - correction s1 s2 - correction s2 s1) % 2 ^ 64))
      × (perform_int_op_64 IntOp.mulhsu s1 s2
          ≡ success ((mulh s1 s2 + 2 ^ 65 - correction s1 s2) % 2 ^ 64))
unfolding perform_int_op_64
perform_int_op_64-mulh s1 s2 h1 h2 =
    (ap success (high-both s1 s2 h1 h2), ap success (high-one s1 s2 h1 h2))
