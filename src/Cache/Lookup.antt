-- ===== src/Cache/Lookup.antt =====
-- Reading one set of the block after a write to another line's set.
use nullrvsim.Prelude.{
  ℕ, ◌<◌, ◌≡◌, ◌≢◌, sym, ap, ◌∙◌, Option, List, length, get_or, set, get_or-set_self, get_or-set_ne,
  [], ◌==◌, ==_of_eq, ==_of_ne, if◌then◌else◌,
}
use native.Mathlib.Decide.{ℕ_discrete}
use nullrvsim.Prelude.Assoc.{find}
use nullrvsim.Cache.Lru.{Block, set_index, set_of, store}

module _ {ℓ} {P : Type ℓ} where
  -- What the block holds for a line.
  abbrev pub lookup : Block P → ℕ → Option P
  lookup c k = find k (set_of c k)

  pub set_of-store_self :
      (c : Block P) (l : ℕ) (m : List (ℕ × P))
      → set_index c l < length c.sets
      → set_of (store l m c) l ≡ m
  set_of-store_self c l m h = get_or-set_self c.sets (set_index c l) m [] h

  -- A line keeps its content if the new set has the same for it.
  pub lookup-store :
      (c : Block P) (l k : ℕ) (m : List (ℕ × P))
      → set_index c l < length c.sets
      → find k m ≡ find k (set_of c l)
      → lookup (store l m c) k ≡ lookup c k
  lookup-store c l k m h e = elim (ℕ_discrete (set_index c k) (set_index c l)) [
    | yes p ↦
        ap (λ i. find k (get_or (set c.sets (set_index c l) m) i [])) p
        ∙ ap (find k) (get_or-set_self c.sets (set_index c l) m [] h)
        ∙ e
        ∙ ap (λ i. find k (get_or c.sets i [])) (sym p)
    | no p ↦ ap (find k) (get_or-set_ne c.sets m [] (λ q. p (sym q)))
  ]

  -- Every line has a set to be in.
  abbrev pub IsWhole : Block P → Type 0
  IsWhole c = (k : ℕ) → set_index c k < length c.sets

  -- A new set in which just the line `l` differs.
  pub lookup-store_at :
      (c : Block P) (l k : ℕ) (m : List (ℕ × P)) (o : Option P)
      → IsWhole c
      → find l m ≡ o
      → (k ≢ l → find k m ≡ find k (set_of c l))
      → lookup (store l m c) k ≡ (if k == l then o else lookup c k)
  lookup-store_at c l k m o whole here there = elim (ℕ_discrete k l) [
    | yes p ↦
        rw (==_of_eq k l p)
          (ap (lookup (store l m c)) p ∙ ap (find l) (set_of-store_self c l m (whole l)) ∙ here)
    | no p ↦ rw (==_of_ne k l p) (lookup-store c l k m (whole l) (there p))
  ]
