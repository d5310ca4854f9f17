-- ===== src/Bus/Sums.antt =====
-- Sums over lists and over maps with number keys.
use nullrvsim.Prelude.{
  ℕ, zero, suc, ◌+◌, ◌<◌, ◌≡◌, refl, Option, Option-cases, inl, inr, none, some, List, [], ◌∷◌,
  length, get_or, set, arith,
}
use nullrvsim.Prelude.Assoc.{find, erase, assign, find-erase_self, find-erase}

module _ {A : Type 0} where
  unfoldable pub sum : (A → ℕ) → List A → ℕ
  sum f [] = 0
  sum f (x ∷ xs) = f x + sum f xs

  pub sum-set :
      (f : A → ℕ) (l : List A) (i : ℕ) (v d : A)
      → i < length l
      → sum f (set l i v) + f (get_or l i d) ≡ sum f l + f v
  unfolding sum
  sum-set f [] i v d h = absurd (omega arith)
  sum-set f (x ∷ xs) zero v d h = omega arith
  sum-set f (x ∷ xs) (suc i) v d h = omega (arith, sum-set f xs i v d (omega arith))

  unfoldable pub sum_values : (A → ℕ) → List (ℕ × A) → ℕ
  sum_values f [] = 0
  sum_values f ((k, a) ∷ m) = f a + sum_values f m

  -- No key stands twice.
  abbrev pub Unique : List (ℕ × A) → Type 0
  Unique [] = Unit
  Unique ((k, a) ∷ m) = (find k m ≡ none) × Unique m

  sum_values-erase_absent :
      (f : A → ℕ) (k : ℕ) (m : List (ℕ × A))
      → find k m ≡ none
      → sum_values f (erase k m) ≡ sum_values f m
  unfolding sum_values find erase
  sum_values-erase_absent f k [] h = refl
  sum_values-erase_absent f k ((j, a) ∷ m) h = ground (arith, sum_values-erase_absent f k m)

  sum_values-erase_found :
      (f : A → ℕ) (k : ℕ) (m : List (ℕ × A)) {a : A}
      → Unique m
      → find k m ≡ some a
      → sum_values f (erase k m) + f a ≡ sum_values f m
  unfolding sum_values find erase
  sum_values-erase_found f k [] u h = absurd (ground arith)
  sum_values-erase_found f k ((j, b) ∷ m) {a} u h =
      ground (arith, sum_values-erase_found f k m {a = a} u.1, sum_values-erase_absent f k m)

  -- What a map has for a key, in a sum.
  abbrev pub value_or : (A → ℕ) → Option A → ℕ
  value_or f none = 0
  value_or f (some a) = f a

  pub sum_values-erase :
      (f : A → ℕ) (k : ℕ) (m : List (ℕ × A))
      → Unique m
      → sum_values f (erase k m) + value_or f (find k m) ≡ sum_values f m
  sum_values-erase f k m u = elim (Option-cases (find k m)) [
    | inl h ↦ ground (arith, sum_values-erase_absent f k m h)
    | inr (a, h) ↦ ground (arith, sum_values-erase_found f k m {a = a} u h)
  ]

  pub sum_values-assign :
      (f : A → ℕ) (k : ℕ) (a : A) (m : List (ℕ × A))
      → Unique m
      → sum_values f (assign k a m) + value_or f (find k m) ≡ sum_values f m + f a
  unfolding sum_values
  sum_values-assign f k a m u = omega (arith, sum_values-erase f k m u)

  pub erase-Unique : (k : ℕ) (m : List (ℕ × A)) → Unique m → Unique (erase k m)
  unfolding erase
  erase-Unique k [] u = tt
  erase-Unique k ((j, a) ∷ m) u = ground (arith, erase-Unique k m u.1, find-erase k j m)

  pub assign-Unique : (k : ℕ) (a : A) (m : List (ℕ × A)) → Unique m → Unique (assign k a m)
  assign-Unique k a m u = (find-erase_self k m, erase-Unique k m u)
