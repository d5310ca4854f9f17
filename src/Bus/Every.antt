-- ===== src/Bus/Every.antt =====
-- Predicates on every element of a list and on every value of a map.
use nullrvsim.Prelude.{
  ℕ, zero, suc, ◌<◌, ◌≡◌, subst, Bool-cases, inl, inr, ◌==◌, some, List, [], ◌∷◌, ◌++◌, length,
  get_or, set, arith,
}
use nullrvsim.Prelude.Assoc.{find, erase}

module _ {A : Type 0} (P : A → Type 0) where
  abbrev pub Every : List A → Type 0
  Every [] = Unit
  Every (x ∷ xs) = P x × Every xs

  pub get_or-Every : (l : List A) (i : ℕ) (d : A) → i < length l → Every l → P (get_or l i d)
  get_or-Every [] i d h e = absurd (omega arith)
  get_or-Every (x ∷ xs) zero d h e = e.0
  get_or-Every (x ∷ xs) (suc i) d h e = get_or-Every xs i d (omega arith) e.1

  pub set-Every : (l : List A) (i : ℕ) (v : A) → P v → Every l → Every (set l i v)
  set-Every [] i v p e = tt
  set-Every (x ∷ xs) zero v p e = (p, e.1)
  set-Every (x ∷ xs) (suc i) v p e = (e.0, set-Every xs i v p e.1)

  pub append-Every : (l m : List A) → Every l → Every m → Every (l ++ m)
  append-Every [] m e f = f
  append-Every (x ∷ xs) m e f = (e.0, append-Every xs m e.1 f)

  abbrev pub EveryValue : List (ℕ × A) → Type 0
  EveryValue [] = Unit
  EveryValue ((k, a) ∷ m) = P a × EveryValue m

  pub find-EveryValue : (k : ℕ) (m : List (ℕ × A)) {a : A} → EveryValue m → find k m ≡ some a → P a
  unfolding find
  find-EveryValue k [] e h = absurd (ground arith)
  find-EveryValue k ((j, b) ∷ m) {a} e h = elim (Bool-cases (j == k)) [
    | inl same ↦ let one : b ≡ a = ground arith in subst P one e.0
    | inr other ↦ find-EveryValue k m {a = a} e.1 (ground arith)
  ]

  pub erase-EveryValue : (k : ℕ) (m : List (ℕ × A)) → EveryValue m → EveryValue (erase k m)
  unfolding erase
  erase-EveryValue k [] e = tt
  erase-EveryValue k ((j, b) ∷ m) e = ground (arith, erase-EveryValue k m e.1)
