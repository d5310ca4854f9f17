-- ===== src/Operation/Order.antt =====
-- The comparisons: branches against their negations and against the order of the unsigned words,
-- and the atomic minima and maxima.
use nullrvsim.Prelude.{
  ℕ, ◌+◌, ◌-◌, ◌%◌, ◌^◌, ◌<◌, ◌≤◌, ◌≡◌, ◌⊎◌, refl, Bool, ltb, ◌==◌, not, ◌||◌, if◌then◌else◌, arith,
}
use nullrvsim.Isa.Codes.AmoOp
use nullrvsim.Isa.Codes.LsWidth
use nullrvsim.Operation.Signed.{signed, i64, less}
use nullrvsim.Operation.Branch.{success, unsupported, of_bool, perform_branch_op_64}
use nullrvsim.Operation.Atomic.{perform_amo_op}

-- The other condition of the same pair: funct3 with its lowest bit flipped.
abbrev pub flip : ℕ → ℕ
flip op = if op % 2 == 0 then op + 1 else op - 1

-- Flipping the sign bit turns the signed order into the unsigned one.
abbrev pub biased : ℕ → ℕ
biased s = (s + 2 ^ 63) % 2 ^ 64

pub less-biased :
    (s1 s2 : ℕ) → s1 < 2 ^ 64 → s2 < 2 ^ 64 → less (i64 s1) (i64 s2) ≡ ltb (biased s1) (biased s2)
unfolding less i64 signed
less-biased s1 s2 h1 h2 = ground arith

-- What a branch answers, as a Boolean: the manual's table, for the pairs of conditions.
abbrev pub taken : ℕ → ℕ → ℕ → Bool
taken pair s1 s2 =
    if pair == 0 then s1 == s2 else if pair == 2 then ltb (biased s1) (biased s2) else ltb s1 s2

-- On two 64-bit words every branch with a condition of the manual answers what its pair of
-- conditions says, negated where the lowest bit of funct3 is set; the two codes that the manual
-- leaves free are refused.
pub perform_branch_op_64-taken :
    (op s1 s2 : ℕ)
    → op < 8
    → s1 < 2 ^ 64
    → s2 < 2 ^ 64
    → let answer = taken (op - op % 2 - (if ltb op 4 then 0 else 2)) s1 s2 in
      perform_branch_op_64 op s1 s2 ≡ (
        if op == 2 || op == 3
        then unsupported
        else success (of_bool (if op % 2 == 0 then answer else not answer)))
unfolding perform_branch_op_64
perform_branch_op_64-taken op s1 s2 ho h1 h2 = ground (arith, less-biased s1 s2 h1 h2)

-- AMOMAX and AMOMIN on 64-bit words share out the two operands, the greater one to AMOMAX; AMOMAXU
-- and AMOMINU do so in the unsigned order.
pub perform_amo_op-minmax :
    (s1 s2 : ℕ)
    → s1 < 2 ^ 64
    → s2 < 2 ^ 64
    → ((v : ℕ) × (w : ℕ) × (perform_amo_op AmoOp.max LsWidth.dword s1 s2 ≡ success v)
        × (perform_amo_op AmoOp.min LsWidth.dword s1 s2 ≡ success w)
        × (((v ≡ s1) × (w ≡ s2)) ⊎ ((v ≡ s2) × (w ≡ s1)))
        × (biased w ≤ biased v))
      × ((v : ℕ) × (w : ℕ) × (perform_amo_op AmoOp.maxu LsWidth.dword s1 s2 ≡ success v)
          × (perform_amo_op AmoOp.minu LsWidth.dword s1 s2 ≡ success w)
          × (((v ≡ s1) × (w ≡ s2)) ⊎ ((v ≡ s2) × (w ≡ s1)))
          × (w ≤ v))
unfolding perform_amo_op
perform_amo_op-minmax s1 s2 h1 h2 = (
  (
    _,
    _,
    refl,
    refl,
    ground (arith, less-biased s1 s2 h1 h2, less-biased s2 s1 h2 h1),
    ground (arith, less-biased s1 s2 h1 h2, less-biased s2 s1 h2 h1),
  ),
  (_, _, refl, refl, ground arith, ground arith),
)
