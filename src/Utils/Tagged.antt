-- ===== src/Utils/Tagged.antt =====
-- src/utils/storage.hpp: TaggedArrayStorageNext<TagT, DataT, Size>, an array with a map from the tags
-- to the places. Tags are numbers; `blank` stands for what the array holds before it is set.
use nullrvsim.Prelude.{
  ℕ, ◌<◌, ◌≡◌, refl, ◌∙◌, ap, Bool, true, ltb, leb, ◌==◌, ◌&&◌, Option, none, some, Option-cases,
  inl, inr, List, [], ◌∷◌, ◌++◌, length, length-set, get_or, set, get_or-set_self, arith,
}
use nullrvsim.Prelude.Assoc.{find, erase, assign, find-assign, find-erase, get_or-set}

pub record ToBeSetEntry {ℓ} (D : Type ℓ) : Type ℓ where
  pub index : ℕ
  pub tag : ℕ
  pub data_ : D

pub record Tagged {ℓ} (D : Type ℓ) : Type ℓ where
  pub tags : List ℕ
  pub datas : List D
  pub tag2idx : List (ℕ × ℕ)
  pub to_be_set_entries : List (ToBeSetEntry D)

module _ {ℓ} {D : Type ℓ} where
  -- The data and its place.
  unfoldable pub match_ : ℕ → D → Tagged D → Option (D × ℕ)
  match_ tag blank s = elim (find tag s.tag2idx) [
    | none ↦ none
    | some idx ↦ some (get_or s.datas idx blank, idx)
  ]

  unfoldable pub full : ℕ → Tagged D → Bool
  full size s = leb size (length s.tag2idx)

  unfoldable pub get : ℕ → D → Tagged D → ℕ × D
  get idx blank s = (get_or s.tags idx 0, get_or s.datas idx blank)

  unfoldable pub setnext : ℕ → ℕ → D → Tagged D → Tagged D
  setnext idx tag data_ s = record s {
    to_be_set_entries =
        s.to_be_set_entries ++ record { index = idx; tag = tag; data_ = data_ } ∷ [];
  }

  -- The body of the loop in apply_next_tick.
  unfoldable pub apply_entry : ToBeSetEntry D → Tagged D → Tagged D
  apply_entry e s = record s {
    tags = set s.tags e.index e.tag;
    datas = set s.datas e.index e.data_;
    tag2idx = assign e.tag e.index (erase (get_or s.tags e.index 0) s.tag2idx);
  }

  unfoldable pub apply_entries : List (ToBeSetEntry D) → Tagged D → Tagged D
  apply_entries [] s = s
  apply_entries (e ∷ es) s = apply_entries es (apply_entry e s)

  unfoldable pub apply_next_tick : Tagged D → Tagged D
  apply_next_tick s = record (apply_entries s.to_be_set_entries s) { to_be_set_entries = [] }

  -- What the map says of a tag is true of the array.
  abbrev pub true_of : ℕ → Tagged D → Bool
  true_of t s = elim (find t s.tag2idx) [
    | none ↦ true
    | some i ↦ get_or s.tags i 0 == t && ltb i (length s.tags)
  ]

  abbrev pub in_range : ℕ → List (ToBeSetEntry D) → Bool
  in_range n [] = true
  in_range n (e ∷ es) = ltb e.index n && in_range n es

  apply_entry-true_of :
      (e : ToBeSetEntry D) (t : ℕ) (s : Tagged D)
      → e.index < length s.tags
      → true_of t s ≡ true
      → true_of t (apply_entry e s) ≡ true
  unfolding apply_entry
  apply_entry-true_of e t s inside h =
      let old = get_or s.tags e.index 0 in
      elim (Option-cases (find t s.tag2idx)) [
        | inl n ↦ ground (
          arith,
          find-assign e.tag t e.index (erase old s.tag2idx),
          find-erase old t s.tag2idx,
          get_or-set s.tags e.index e.index e.tag 0 inside,
          length-set s.tags e.index e.tag,
        )
        | inr (i, q) ↦ ground (
          arith,
          find-assign e.tag t e.index (erase old s.tag2idx),
          find-erase old t s.tag2idx,
          get_or-set s.tags e.index e.index e.tag 0 inside,
          get_or-set s.tags e.index i e.tag 0 inside,
          length-set s.tags e.index e.tag,
        )
      ]

  sizes_kept :
      (e : ToBeSetEntry D) (s : Tagged D)
      → (length (apply_entry e s).tags ≡ length s.tags)
        × (length (apply_entry e s).datas ≡ length s.datas)
  unfolding apply_entry
  sizes_kept e s = (length-set s.tags e.index e.tag, length-set s.datas e.index e.data_)

  apply_entries-true_of :
      (es : List (ToBeSetEntry D)) (t : ℕ) (s : Tagged D)
      → in_range (length s.tags) es ≡ true
      → true_of t s ≡ true
      → true_of t (apply_entries es s) ≡ true
  unfolding apply_entries
  apply_entries-true_of [] t s r h = h
  apply_entries-true_of (e ∷ es) t s r h =
      apply_entries-true_of es t (apply_entry e s) (ground (arith, sizes_kept e s))
        (apply_entry-true_of e t s (ground arith) h)

  -- Once the writes of a cycle, all in range, are applied, what the map says of a tag is true of the
  -- array, if it was before: the tag stands at the place that the map has for it.
  pub apply_next_tick-true_of :
      (t : ℕ) (s : Tagged D)
      → in_range (length s.tags) s.to_be_set_entries ≡ true
      → true_of t s ≡ true
      → true_of t (apply_next_tick s) ≡ true
  unfolding apply_next_tick
  apply_next_tick-true_of t s r h = apply_entries-true_of s.to_be_set_entries t s r h

  apply_entries-size :
      (es : List (ToBeSetEntry D)) (s : Tagged D)
      → length (apply_entries es s).datas ≡ length s.datas
  unfolding apply_entries
  apply_entries-size [] s = refl
  apply_entries-size (e ∷ es) s = apply_entries-size es (apply_entry e s) ∙ (sizes_kept e s).1

  apply_entries-append :
      (es : List (ToBeSetEntry D)) (e : ToBeSetEntry D) (s : Tagged D)
      → apply_entries (es ++ e ∷ []) s ≡ apply_entry e (apply_entries es s)
  unfolding apply_entries
  apply_entries-append [] e s = refl
  apply_entries-append (f ∷ es) e s = apply_entries-append es e (apply_entry f s)

  match-apply_entry :
      (e : ToBeSetEntry D) (blank : D) (s : Tagged D)
      → e.index < length s.datas
      → match_ e.tag blank (apply_entry e s) ≡ some (e.data_, e.index)
  unfolding match_ apply_entry
  match-apply_entry e blank s inside = ground (
    arith,
    find-assign e.tag e.tag e.index (erase (get_or s.tags e.index 0) s.tag2idx),
    get_or-set_self s.datas e.index e.data_ blank inside,
  )

  -- In the cycle after a write in range, its tag is found, with the data and the place of the write,
  -- whatever was written before it in the same cycle.
  pub match-setnext :
      (idx tag : ℕ) (data_ blank : D) (s : Tagged D)
      → idx < length s.datas
      → match_ tag blank (apply_next_tick (setnext idx tag data_ s)) ≡ some (data_, idx)
  unfolding apply_next_tick setnext match_
  match-setnext idx tag data_ blank s inside =
      let e : ToBeSetEntry D = record { index = idx; tag = tag; data_ = data_ } in
      let queued : Tagged D = setnext idx tag data_ s in
      ap (match_ tag blank) (apply_entries-append s.to_be_set_entries e queued)
      ∙ match-apply_entry e blank (apply_entries s.to_be_set_entries queued)
          (omega (arith, apply_entries-size s.to_be_set_entries queued))
