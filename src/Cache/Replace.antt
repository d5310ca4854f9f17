-- ===== src/Cache/Replace.antt =====
-- insert_line as a map: what every line holds afterwards.
use nullrvsim.Prelude.{
  ℕ, ◌≤◌, ◌≡◌, ◌≢◌, Bool, false, ltb, ◌==◌, if◌then◌else◌, Option, none, some, Option-cases,
  Bool-cases, inl, inr, length, arith,
}
use nullrvsim.Prelude.Assoc.{
  insert, erase, assign, find-insert_self, find-insert_ne, find-assign_self, find-assign_ne,
  find-erase_self, find-erase_ne,
}
use nullrvsim.Cache.Lru.{
  Block, set_of, lru_of, store, get_line, remove_line, insert_line, update_line, back,
}
use nullrvsim.Cache.Lookup.{lookup, lookup-store_at, IsWhole}
use nullrvsim.Cache.Whole.{remove_line-IsWhole}

module _ {ℓ} {P : Type ℓ} where
  -- Is this the line that went?
  abbrev pub is_victim : Option (ℕ × P) → ℕ → Bool
  is_victim none k = false
  is_victim (some (v, p)) k = k == v

  pub lookup-remove_line :
      (v k : ℕ) (c : Block P)
      → IsWhole c
      → lookup (remove_line v c) k ≡ (if k == v then none else lookup c k)
  unfolding remove_line
  lookup-remove_line v k c whole =
      lookup-store_at c v k (erase v (set_of c v)) none whole (find-erase_self v (set_of c v))
        (find-erase_ne v k (set_of c v))

  lookup-insert :
      (l k : ℕ) (buf : P) (c : Block P)
      → IsWhole c
      → lookup c l ≡ none
      → lookup (store l (insert l buf (set_of c l)) c) k ≡ (if k == l then some buf else lookup c k)
  lookup-insert l k buf c whole e =
      lookup-store_at c l k (insert l buf (set_of c l)) (some buf) whole
        (find-insert_self l buf (set_of c l) e) (find-insert_ne l k buf (set_of c l))

  pub lookup-assign :
      (l k : ℕ) (buf : P) (c : Block P)
      → IsWhole c
      → lookup (store l (assign l buf (set_of c l)) c) k ≡ (if k == l then some buf else lookup c k)
  lookup-assign l k buf c whole =
      lookup-store_at c l k (assign l buf (set_of c l)) (some buf) whole
        (find-assign_self l buf (set_of c l)) (find-assign_ne l k buf (set_of c l))

  -- After an insertion the line holds the new payload, the line that was replaced is gone, and every
  -- other line holds what it held.
  pub lookup-insert_line :
      (l k : ℕ) (buf : P) (c : Block P) {replaced : Option (ℕ × P)} {c' : Block P}
      → IsWhole c
      → insert_line l buf c ≡ some (replaced, c')
      → lookup c' k
        ≡ (if k == l then some buf else if is_victim replaced k then none else lookup c k)
  unfolding insert_line get_line
  lookup-insert_line l k buf c {replaced} {c'} whole e = elim (Option-cases (lookup c l)) [
    | inr (p, q) ↦ ground (arith, lookup-assign l k buf c whole)
    | inl q ↦ elim (Bool-cases (ltb (length (set_of c l)) c.line_per_set)) [
      | inl room ↦ ground (arith, lookup-insert l k buf c whole)
      | inr full ↦ elim (Option-cases (back (lru_of c l))) [
        | inl n ↦ absurd (ground arith)
        | inr (v, b) ↦ elim (Option-cases (lookup c v)) [
          | inl n ↦ absurd (ground arith)
          | inr (p, found) ↦
              let left : Block P = remove_line v c in
              let gone : lookup left l ≡ none = ground (arith, lookup-remove_line v l c whole) in
              ground (
                arith,
                lookup-insert l k buf left (remove_line-IsWhole v c whole) gone,
                lookup-remove_line v k c whole,
              )
        ]
      ]
    ]
  ]

  -- A line is replaced only for a line that was not there, in a full set; the answer has what the
  -- replaced line held.
  pub insert_line-replaced :
      (l : ℕ) (buf : P) (c : Block P) {v : ℕ} {p : P} {c' : Block P}
      → insert_line l buf c ≡ some (some (v, p), c')
      → (lookup c v ≡ some p)
        × (lookup c l ≡ none)
        × (c.line_per_set ≤ length (set_of c l))
        × (back (lru_of c l) ≡ some v)
  unfolding insert_line get_line
  insert_line-replaced l buf c e = ground arith

  pub lookup-update_line :
      (l k : ℕ) (buf : P) (c : Block P)
      → IsWhole c
      → lookup c l ≢ none
      → lookup (update_line l buf false c).1 k ≡ (if k == l then some buf else lookup c k)
  unfolding update_line
  lookup-update_line l k buf c whole there = ground (arith, lookup-assign l k buf c whole)
