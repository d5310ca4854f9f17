-- ===== src/Prelude/Assoc.antt =====
-- std::unordered_map with number keys, as an association list without an order that matters.
use Prim.Native.Nat.{ℕ, ◌<◌}
use nullrvsim.Prelude.Lists.{length, get_or, set, get_or-set_self, get_or-set_ne}
use mathlib.Core.Path.{◌≡◌, refl, sym}
use mathlib.Core.Logic.{◌≢◌}
use native.Mathlib.Decide.{ℕ_discrete}
use mathlib.Core.Option.{Option, none, some}
use mathlib.Core.List.{List, [], ◌∷◌}
use native.Mathlib.Omega.{arith}
use nullrvsim.Prelude.Tests.{◌==◌, ==_of_eq, ==_of_ne, if◌then◌else◌}

module _ {ℓ} {A : Type ℓ} where
  unfoldable pub find : ℕ → List (ℕ × A) → Option A
  find k [] = none
  find k ((j, a) ∷ m) = if j == k then some a else find k m

  unfoldable pub erase : ℕ → List (ℕ × A) → List (ℕ × A)
  erase k [] = []
  erase k ((j, a) ∷ m) = let rest = erase k m in if j == k then rest else (j, a) ∷ rest

  -- `m[k] = a`
  abbrev pub assign : ℕ → A → List (ℕ × A) → List (ℕ × A)
  assign k a m = (k, a) ∷ erase k m

  -- `m.insert(k, a)` and `m.emplace(k, a)` leave an entry that is there.
  unfoldable pub insert : ℕ → A → List (ℕ × A) → List (ℕ × A)
  insert k a m = elim (find k m) [ none ↦ (k, a) ∷ m | some b ↦ m ]

  pub find-erase_self : (k : ℕ) (m : List (ℕ × A)) → find k (erase k m) ≡ none
  unfolding find erase
  find-erase_self k [] = refl
  find-erase_self k ((j, a) ∷ m) = ground (arith, find-erase_self k m)

  pub find-erase_ne : (k i : ℕ) (m : List (ℕ × A)) → i ≢ k → find i (erase k m) ≡ find i m
  unfolding find erase
  find-erase_ne k i [] h = refl
  find-erase_ne k i ((j, a) ∷ m) h = ground (arith, find-erase_ne k i m h)

  pub find-assign_self : (k : ℕ) (a : A) (m : List (ℕ × A)) → find k (assign k a m) ≡ some a
  unfolding find
  find-assign_self k a m = ground arith

  pub find-assign_ne :
      (k i : ℕ) (a : A) (m : List (ℕ × A)) → i ≢ k → find i (assign k a m) ≡ find i m
  unfolding find
  find-assign_ne k i a m h = ground (arith, find-erase_ne k i m h)

  pub find-insert_self :
      (k : ℕ) (a : A) (m : List (ℕ × A)) → find k m ≡ none → find k (insert k a m) ≡ some a
  unfolding find insert
  find-insert_self k a m h = ground arith

  pub find-insert_ne :
      (k i : ℕ) (a : A) (m : List (ℕ × A)) → i ≢ k → find i (insert k a m) ≡ find i m
  unfolding find insert
  find-insert_ne k i a m h = ground arith

  pub find-assign :
      (l k : ℕ) (a : A) (m : List (ℕ × A))
      → find k (assign l a m) ≡ (if k == l then some a else find k m)
  find-assign l k a m = elim (ℕ_discrete k l) [
    | yes p ↦ rw (==_of_eq k l p, p) (find-assign_self l a m)
    | no p ↦ rw (==_of_ne k l p) (find-assign_ne l k a m p)
  ]

  pub find-erase :
      (l k : ℕ) (m : List (ℕ × A)) → find k (erase l m) ≡ (if k == l then none else find k m)
  find-erase l k m = elim (ℕ_discrete k l) [
    | yes p ↦ rw (==_of_eq k l p, p) (find-erase_self l m)
    | no p ↦ rw (==_of_ne k l p) (find-erase_ne l k m p)
  ]

-- A write in bounds, at every index.
pub get_or-set {ℓ} :
    {A : Type ℓ} (xs : List A) (i j : ℕ) (v d : A)
    → i < length xs
    → get_or (set xs i v) j d ≡ (if j == i then v else get_or xs j d)
get_or-set xs i j v d h = elim (ℕ_discrete j i) [
  | yes p ↦ rw (==_of_eq j i p, p) (get_or-set_self xs i v d h)
  | no p ↦ rw (==_of_ne j i p) (get_or-set_ne xs v d (λ e. p (sym e)))
]
