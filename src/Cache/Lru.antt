-- ===== src/Cache/Lru.antt =====
-- GenericLRUCacheBlock<PayloadT>. Out parameters are results; a pointer into a set is the payload.
use nullrvsim.Prelude.{
  ℕ, zero, suc, ◌%◌, ◌^◌, bit_and, Bool, true, false, ltb, ◌==◌, if◌then◌else◌, Option, none, some,
  List, [], ◌∷◌, length, get_or, set,
}
use nullrvsim.Prelude.Words.{sub32}
use nullrvsim.Prelude.Assoc.{find, erase, assign, insert}
use nullrvsim.Prelude.Sets.{remove_all, contains}

-- `p_sets` and `p_lrus` are arrays of `set_count` entries; `pinned_line` is a set without an order.
pub record Block {ℓ} (P : Type ℓ) : Type ℓ where
  pub set_count : ℕ
  pub line_per_set : ℕ
  pub sets : List (List (ℕ × P))
  pub lrus : List (List ℕ)
  pub pinned_line : List ℕ

-- The first copy only.
unfoldable pub remove_first : ℕ → List ℕ → List ℕ
remove_first l [] = []
remove_first l (k ∷ ks) = let rest = remove_first l ks in if k == l then ks else k ∷ rest

-- `lru.back()`, undefined on an empty list.
unfoldable pub back : List ℕ → Option ℕ
back [] = none
back (k ∷ []) = some k
back (k ∷ j ∷ ks) = back (j ∷ ks)

abbrev pub repeat {ℓ} : {A : Type ℓ} → ℕ → A → List A
repeat zero a = []
repeat (suc n) a = a ∷ repeat n a

module _ {ℓ} {P : Type ℓ} where
  unfoldable pub init : ℕ → ℕ → Block P
  init set_addr_offset line_per_set =
      let count = 2 ^ set_addr_offset % 2 ^ 32 in
      record {
        set_count = count;
        line_per_set = line_per_set;
        sets = repeat count [];
        lrus = repeat count [];
        pinned_line = [];
      }

  abbrev pub set_index : Block P → ℕ → ℕ
  set_index c lindex = bit_and lindex (sub32 c.set_count 1)

  abbrev pub set_of : Block P → ℕ → List (ℕ × P)
  set_of c lindex = get_or c.sets (set_index c lindex) []

  abbrev pub lru_of : Block P → ℕ → List ℕ
  lru_of c lindex = get_or c.lrus (set_index c lindex) []

  abbrev pub store : ℕ → List (ℕ × P) → Block P → Block P
  store lindex m c = record c { sets = set c.sets (set_index c lindex) m }

  abbrev pub store_lru : ℕ → List ℕ → Block P → Block P
  store_lru lindex l c = record c { lrus = set c.lrus (set_index c lindex) l }

  abbrev pub tag_lru : ℕ → Block P → Block P
  tag_lru lindex c = store_lru lindex (lindex ∷ remove_all lindex (lru_of c lindex)) c

  -- The payload, when the line is there.
  unfoldable pub get_line : ℕ → Bool → Block P → Option P × Block P
  get_line lindex lru_tag c = elim (find lindex (set_of c lindex)) [
    | none ↦ (none, c)
    | some p ↦ (some p, if lru_tag then tag_lru lindex c else c)
  ]

  unfoldable pub update_line : ℕ → P → Bool → Block P → Bool × Block P
  update_line lindex buf lru_tag c = elim (find lindex (set_of c lindex)) [
    | none ↦ (false, c)
    | some p ↦
        let written = store lindex (assign lindex buf (set_of c lindex)) c in
        (true, if lru_tag then tag_lru lindex written else written)
  ]

  unfoldable pub remove_line : ℕ → Block P → Block P
  remove_line lindex c =
      let erased = store lindex (erase lindex (set_of c lindex)) c in
      record (store_lru lindex (remove_all lindex (lru_of c lindex)) erased) {
        pinned_line = remove_first lindex c.pinned_line;
      }

  -- The line that goes and what it held, or `none` where nothing is replaced. The outer `none` is a
  -- failed assertion, or the end of an empty list.
  unfoldable pub insert_line : ℕ → P → Block P → Option (Option (ℕ × P) × Block P)
  insert_line lindex buf c = elim (find lindex (set_of c lindex)) [
    | some p ↦ some (none, tag_lru lindex (store lindex (assign lindex buf (set_of c lindex)) c))
    | none ↦
        if ltb (length (set_of c lindex)) c.line_per_set
        then some (none, tag_lru lindex (store lindex (insert lindex buf (set_of c lindex)) c))
        else elim (back (lru_of c lindex)) [
          | none ↦ none
          | some victim ↦ elim (get_line victim false c).0 [
            | none ↦ none
            | some p ↦
                let left = remove_line victim c in
                some (
                  some (victim, p),
                  tag_lru lindex (store lindex (insert lindex buf (set_of left lindex)) left),
                )
          ]
        ]
  ]

  -- The pinned lines are left.
  unfoldable pub clear : Block P → Block P
  clear c = record c { sets = repeat c.set_count []; lrus = repeat c.set_count [] }

  unfoldable pub pin : ℕ → Block P → Block P
  pin lindex c =
      if contains lindex (lru_of c lindex)
      then record (store_lru lindex (remove_first lindex (lru_of c lindex)) c) {
        pinned_line =
            if contains lindex c.pinned_line then c.pinned_line else lindex ∷ c.pinned_line;
      }
      else c

  unfoldable pub unpin : ℕ → Block P → Block P
  unpin lindex c =
      if contains lindex c.pinned_line
      then record (store_lru lindex (lindex ∷ lru_of c lindex) c) {
        pinned_line = remove_first lindex c.pinned_line;
      }
      else c
