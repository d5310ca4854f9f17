-- ===== src/Cache/Misses.antt =====
-- The miss status registers: how many there are, and what an allocation changes.
use nullrvsim.Prelude.{
  ℕ, true, Bool-cases, Option-cases, inl, inr, ◌⊎◌, ◌↔◌, ==_of_eq, ==_of_ne, ◌+◌, ◌≤◌, ◌≡◌, refl,
  ltb, none, some, List, [], ◌∷◌, length, arith, ◌==◌, if◌then◌else◌,
}
use native.Mathlib.Decide.{ℕ_discrete}
use nullrvsim.Prelude.Assoc.{find, erase, insert, find-erase_self, find-erase_ne}
use nullrvsim.Cache.Mshr.{Mshr, get, alloc, remove}

module _ {ℓ} {P : Type ℓ} where
  -- A successful allocation was of a line without an entry; it gives that line the zeroed entry,
  -- leaves the others, and the table grows by one entry and not beyond its limit.
  pub get-alloc :
      (zeroed : P) (lindex k : ℕ) (r : Mshr P) {s : Mshr P}
      → alloc zeroed lindex r ≡ some s
      → (get lindex r ≡ none)
        × (get k s ≡ (if k == lindex then some zeroed else get k r))
        × (length s.hashmap ≤ s.max_sz)
        × (length s.hashmap ≡ length r.hashmap + 1)
  unfolding get alloc insert find
  get-alloc zeroed lindex k r {s} e = ground arith

  -- An allocation is refused exactly when the line has an entry or the table is full.
  pub alloc-none :
      (zeroed : P) (lindex : ℕ) (r : Mshr P)
      → (alloc zeroed lindex r ≡ none)
        ↔ (((p : P) × (get lindex r ≡ some p)) ⊎ (r.max_sz ≤ length r.hashmap))
  unfolding get alloc
  alloc-none zeroed lindex r = elim (Option-cases (find lindex r.hashmap)) [
    | inl e ↦ elim (Bool-cases (ltb (length r.hashmap) r.max_sz)) [
      | inl room ↦ (λ q. absurd (ground arith), λ q. absurd (refused e room q))
      | inr full ↦ (λ q. inr (ground arith), λ q. rw (alloc, e, full) refl)
    ]
    | inr (p, e) ↦ (λ q. inl (p, e), λ q. rw (alloc, e) refl)
  ]
    where
      refused :
          find lindex r.hashmap ≡ none
          → ltb (length r.hashmap) r.max_sz ≡ true
          → ((p : P) × (find lindex r.hashmap ≡ some p)) ⊎ (r.max_sz ≤ length r.hashmap)
          → ⊥
      refused e room (inl (p, q)) = ground arith
      refused e room (inr full) = ground arith

  pub length-erase : (k : ℕ) (m : List (ℕ × P)) → length (erase k m) ≤ length m
  unfolding erase
  length-erase k [] = omega arith
  length-erase k ((j, a) ∷ m) = ground (arith, length-erase k m)

  -- Removing an entry makes its line free, leaves the others, and does not lengthen the table.
  pub get-remove :
      (lindex k : ℕ) (r : Mshr P)
      → (get k (remove lindex r) ≡ (if k == lindex then none else get k r))
        × (length (remove lindex r).hashmap ≤ length r.hashmap)
  unfolding get remove
  get-remove lindex k r = (
    elim (ℕ_discrete k lindex) [
      | yes p ↦ rw (==_of_eq k lindex p, p) (find-erase_self lindex r.hashmap)
      | no p ↦ rw (==_of_ne k lindex p) (find-erase_ne lindex k r.hashmap p)
    ],
    length-erase lindex r.hashmap,
  )
