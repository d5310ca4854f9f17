-- ===== src/Utils/Victim.antt =====
-- The victim of the tree of bits (src/utils/replacer.hpp).
use nullrvsim.Prelude.{
  ℕ, zero, suc, ◌+◌, ◌-◌, ◌*◌, ◌/◌, ◌%◌, ◌^◌, ◌≡◌, ◌≢◌, ◌<◌, ◌≤◌, refl, sym, ap, ◌∙◌, Bool, false,
  ◌==◌, if◌then◌else◌, List, [], ◌∷◌, ◌++◌, length, length-set, bit_and, get_or, set,
  get_or-set_self, arith,
}
use nullrvsim.Prelude.Assoc.{get_or-set}
use nullrvsim.Prelude.Bits.{bit_and-mask, div-halves}
use native.Mathlib.Nat.{
  pow-suc, one-le-pow, div-div-eq-div-mul, add-div_right, div-eq_of_lt, div-mul-le_self,
  lt-div-mul-add, mod-lt, mod-eq_of_lt,
}
use nullrvsim.Utils.Plru.{
  ReplacerPlru, descend, ascend, set_index, touch, victim, touch_entry, touch_all, apply_next_tick,
}

half-div : (k a : ℕ) → a / 2 ^ suc k ≡ a / 2 ^ k / 2
half-div k a =
    ap (λ (t : ℕ). a / t) (omega (arith, pow-suc 2 k)) ∙ sym (div-div-eq-div-mul a (2 ^ k) 2)

-- Below node `i` the descent stays below node `i`.
descend-node : (n i : ℕ) (tree : List Bool) → descend n i tree / 2 ^ n ≡ i
unfolding descend
descend-node zero i tree = ground arith
descend-node (suc n) i tree = ground (
  arith,
  half-div n (descend (suc n) i tree),
  descend-node n (i * 2 + (if get_or tree i false then 1 else 0)) tree,
)

-- The ascent from a leaf sets the root to the other side.
ascend-root :
    (n idx : ℕ) (tree : List Bool)
    → idx / 2 ^ suc n ≡ 1
    → 1 < length tree
    → get_or (ascend (suc n) idx tree) 1 false ≡ ((idx / 2 ^ n) % 2 == 0)
unfolding ascend
ascend-root zero idx tree h k =
    ground (arith, get_or-set tree (idx / 2) 1 (idx % 2 == 0) false (omega arith))
ascend-root (suc n) idx tree h k =
    let above : List Bool = set tree (idx / 2) (idx % 2 == 0) in
    ascend-root n (idx / 2) above (omega (arith, div-halves (suc n) idx))
      (omega (arith, length-set tree (idx / 2) (idx % 2 == 0)))
    ∙ ap (λ (t : ℕ). t % 2 == 0) (sym (div-halves n idx))

pow-pos : (k : ℕ) → 0 < 2 ^ k
pow-pos k = one-le-pow k 2 (omega arith)

-- A way, and the node that it is.
leaf-half : (level idx : ℕ) → idx < 2 ^ level → (idx + 2 ^ level) / 2 ^ level ≡ 1
leaf-half level idx h = omega (arith, add-div_right idx (pow-pos level), div-eq_of_lt h)

-- The victim lies on the other side of the root than the way that was just touched.
descend-ascend :
    (n idx : ℕ) (tree : List Bool)
    → idx < 2 ^ suc n
    → 1 < length tree
    → descend (suc n) 1 (ascend (suc n) (idx + 2 ^ suc n) tree) ≢ idx + 2 ^ suc n
unfolding descend
descend-ascend n idx tree h k e =
    let touched = ascend (suc n) (idx + 2 ^ suc n) tree in
    ground (
      arith,
      ap (λ (t : ℕ). t / 2 ^ n) e,
      descend-node n (2 + (if get_or touched 1 false then 1 else 0)) touched,
      ascend-root n (idx + 2 ^ suc n) tree (leaf-half (suc n) idx h) k,
    )

descend-range :
    (level : ℕ) (tree : List Bool)
    → (2 ^ level ≤ descend level 1 tree) × (descend level 1 tree < 2 ^ level + 2 ^ level)
descend-range level tree =
    let d = descend level 1 tree in
    let one : d / 2 ^ level * 2 ^ level ≡ 1 * 2 ^ level =
      ap (λ (t : ℕ). t * 2 ^ level) (descend-node level 1 tree) in
    (
      omega (arith, one, div-mul-le_self d (2 ^ level)),
      omega (arith, one, lt-div-mul-add {a = d} (pow-pos level)),
    )

length-ascend : (n idx : ℕ) (tree : List Bool) → length (ascend n idx tree) ≡ length tree
unfolding ascend
length-ascend zero idx tree = refl
length-ascend (suc n) idx tree =
    length-ascend n (idx / 2) (set tree (idx / 2) (idx % 2 == 0))
    ∙ length-set tree (idx / 2) (idx % 2 == 0)

module _ (aw level : ℕ) where
  -- The victim is one of the ways, whatever the bits are.
  pub victim-range : (addr : ℕ) (r : ReplacerPlru) → victim aw level addr r < 2 ^ level
  unfolding victim
  victim-range addr r = omega (
    arith,
    descend-range level (get_or r.bitree_left_hot_table (set_index aw level addr) []),
    pow-pos level,
  )

  set_index-range : (addr : ℕ) → set_index aw level addr < 2 ^ aw
  set_index-range addr = omega (arith, bit_and-mask aw addr, mod-lt addr (pow-pos aw))

  -- The size of the table and of the trees
  abbrev pub IsSized : List (List Bool) → Type 0
  IsSized table =
      (length table ≡ 2 ^ aw) × ((k : ℕ) → k < 2 ^ aw → length (get_or table k []) ≡ 2 ^ level)

  touch_entry-IsSized :
      (addr idx : ℕ) (table : List (List Bool))
      → IsSized table
      → IsSized (touch_entry aw level addr idx table)
  unfolding touch_entry
  touch_entry-IsSized addr idx table (h, k) =
      let here = set_index aw level addr in
      let row = ascend level (idx + 2 ^ level) (get_or table here []) in
      let inside : here < length table = omega (arith, h, set_index-range addr) in
      (
        length-set table here row ∙ h,
        λ j b. ground (
          arith,
          get_or-set table here j row [] inside,
          length-ascend level (idx + 2 ^ level) (get_or table here []),
          k j b,
          k here (set_index-range addr),
        ),
      )

  touch_all-IsSized :
      (l : List (ℕ × ℕ)) (table : List (List Bool))
      → IsSized table
      → IsSized (touch_all aw level l table)
  unfolding touch_all
  touch_all-IsSized [] table h = h
  touch_all-IsSized ((addr, idx) ∷ l) table h =
      touch_all-IsSized l (touch_entry aw level addr idx table)
        (touch_entry-IsSized addr idx table h)

  touch_all-append :
      (l : List (ℕ × ℕ)) (addr idx : ℕ) (table : List (List Bool))
      → touch_all aw level (l ++ (addr, idx) ∷ []) table
        ≡ touch_entry aw level addr idx (touch_all aw level l table)
  unfolding touch_all
  touch_all-append [] addr idx table = refl
  touch_all-append ((b, j) ∷ l) addr idx table =
      touch_all-append l addr idx (touch_entry aw level b j table)

-- The tree of the set after the cycle.
last-tree :
    (aw level addr idx : ℕ) (r : ReplacerPlru)
    → IsSized aw level r.bitree_left_hot_table
    → idx < 2 ^ level
    → get_or
        (apply_next_tick aw level (touch aw level addr idx r)).bitree_left_hot_table
        (set_index aw level addr)
        []
      ≡ ascend level (idx + 2 ^ level) (
          get_or
            (touch_all aw level r.to_be_touched r.bitree_left_hot_table)
            (set_index aw level addr)
            [])
unfolding apply_next_tick touch touch_entry
last-tree aw level addr idx r h inside =
    let here = set_index aw level addr in
    let before = touch_all aw level r.to_be_touched r.bitree_left_hot_table in
    let way : bit_and idx (2 ^ level - 1) ≡ idx = bit_and-mask level idx ∙ mod-eq_of_lt inside in
    let sized = touch_all-IsSized aw level r.to_be_touched r.bitree_left_hot_table h in
    ap (λ (t : List (List Bool)). get_or t here [])
      (touch_all-append aw level r.to_be_touched addr (bit_and idx (2 ^ level - 1))
        r.bitree_left_hot_table)
    ∙ get_or-set_self before here
        (ascend level (bit_and idx (2 ^ level - 1) + 2 ^ level) (get_or before here [])) []
        (omega (arith, sized.0, set_index-range aw level addr))
    ∙ ap (λ (w : ℕ). ascend level (w + 2 ^ level) (get_or before here [])) way

-- After a cycle in which a way was touched last, the victim of its set is another way, when there are
-- at least two and the table has the size that the template gives it.
pub victim-touch :
    (aw n addr idx : ℕ) (r : ReplacerPlru)
    → IsSized aw (suc n) r.bitree_left_hot_table
    → idx < 2 ^ suc n
    → victim aw (suc n) addr (apply_next_tick aw (suc n) (touch aw (suc n) addr idx r)) ≢ idx
unfolding victim
victim-touch aw n addr idx r h inside e =
    let here = set_index aw (suc n) addr in
    let before = touch_all aw (suc n) r.to_be_touched r.bitree_left_hot_table in
    let tree = get_or before here [] in
    let last = ap (descend (suc n) 1) (last-tree aw (suc n) addr idx r h inside) in
    let sized = touch_all-IsSized aw (suc n) r.to_be_touched r.bitree_left_hot_table h in
    let room : 1 < length tree =
      omega (arith, sized.1 here (set_index-range aw (suc n) addr), pow-suc 2 n, pow-pos n) in
    descend-ascend n idx tree inside room
      (omega (arith, e, last, descend-range (suc n) (ascend (suc n) (idx + 2 ^ suc n) tree)))
