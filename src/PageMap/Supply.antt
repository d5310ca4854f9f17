-- ===== src/PageMap/Supply.antt =====
-- The list of free pages over a run of the allocator.
use nullrvsim.Prelude.{
  ℕ, Option-cases, inl, inr, ◌+◌, ◌≡◌, refl, Option, none, some, List, [], ◌∷◌, length, arith,
}
use nullrvsim.PageMap.Alloc.{Allocator, alloc, reuse, free}

-- A call of the allocator.
pub data Call : Type 0 where
  call_alloc : Call
  call_reuse : ℕ → Call
  call_free : ℕ → Call

unfoldable pub step : Call → Allocator → Option Allocator
step call_alloc r = elim (alloc r) [ none ↦ none | some (page, s) ↦ some s ]
step (call_reuse page) r = reuse page r
step (call_free page) r = elim (free page r) [ none ↦ none | some (last, s) ↦ some s ]

unfoldable pub run : List Call → Allocator → Option Allocator
run [] r = some r
run (c ∷ calls) r = elim (step c r) [ none ↦ none | some s ↦ run calls s ]

abbrev pub allocs_in : Call → ℕ
allocs_in call_alloc = 1
allocs_in (call_reuse page) = 0
allocs_in (call_free page) = 0

unfoldable pub allocs : List Call → ℕ
allocs [] = 0
allocs (c ∷ calls) = allocs_in c + allocs calls

step-supply :
    (c : Call) (r : Allocator) {s : Allocator}
    → step c r ≡ some s
    → allocs_in c + length s.valid_pages ≡ length r.valid_pages
unfolding step alloc reuse free
step-supply call_alloc r {s} e = taken r.valid_pages refl
  where
    taken : (l : List ℕ) → r.valid_pages ≡ l → 1 + length s.valid_pages ≡ length r.valid_pages
    taken [] q = absurd (ground arith)
    taken (page ∷ rest) q = ground arith
step-supply (call_reuse page) r e = ground arith
step-supply (call_free page) r e = ground arith

-- Over any run of calls that succeed, every allocation takes one page off the list of free pages for
-- good: `free` forgets a page whose last reference goes, and never lists it as free again.
pub run-supply :
    (calls : List Call) (r : Allocator) {s : Allocator}
    → run calls r ≡ some s
    → allocs calls + length s.valid_pages ≡ length r.valid_pages
unfolding run allocs
run-supply [] r e = ground arith
run-supply (c ∷ calls) r {s} e = elim (Option-cases (step c r)) [
  | inl n ↦ absurd (ground arith)
  | inr (s₁, q) ↦
      let later : run calls s₁ ≡ some s = ground arith in
      omega (arith, step-supply c r q, run-supply calls s₁ later)
]
