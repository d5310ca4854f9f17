-- ===== src/PageMap/Layout.antt =====
-- The segment list as a set of pages: it stays in order, mapping adds just the new pages, and
-- unmapping takes away just the pages of its range.
use nullrvsim.Prelude.{
  ℕ, ◌+◌, ◌^◌, ◌<◌, ◌≤◌, ◌≡◌, refl, Bool, true, false, ltb, leb, ◌&&◌, ◌||◌, not, if◌then◌else◌,
  List, [], ◌∷◌, arith,
}
use nullrvsim.Prelude.Words.{add64, sub64}
use nullrvsim.PageMap.Segments.{Segment, place, cut}

-- From high addresses to low ones, below `top`, and none over another.
unfoldable pub is_ordered : ℕ → List Segment → Bool
is_ordered top [] = true
is_ordered top (s ∷ rest) =
    let below = is_ordered s.vpindex rest in leb (s.vpindex + s.vpcnt) top && below

abbrev pub in_range : ℕ → ℕ → ℕ → Bool
in_range i first past = leb first i && ltb i past

-- Does a segment hold the page?
unfoldable pub covers : ℕ → List Segment → Bool
covers i [] = false
covers i (s ∷ rest) =
    let below = covers i rest in in_range i s.vpindex (s.vpindex + s.vpcnt) || below

is_ordered-raise :
    (segs : List Segment) {top top' : ℕ}
    → top ≤ top'
    → is_ordered top segs ≡ true
    → is_ordered top' segs ≡ true
unfolding is_ordered
is_ordered-raise [] h e = refl
is_ordered-raise (s ∷ rest) h e = ground arith

-- Unmapping a range of pages keeps the segments in order.
pub cut-is_ordered :
    (vpi vpi2 top : ℕ) (segs : List Segment)
    → vpi ≤ vpi2
    → top < 2 ^ 64
    → is_ordered top segs ≡ true
    → is_ordered top (cut vpi vpi2 segs) ≡ true
unfolding cut is_ordered
cut-is_ordered vpi vpi2 top [] le small e = refl
cut-is_ordered vpi vpi2 top (s ∷ segs) le small e =
    let rest = cut vpi vpi2 segs in
    ground (
      arith,
      cut-is_ordered vpi vpi2 s.vpindex segs le,
      is_ordered-raise rest {top = s.vpindex} {top' = vpi2},
      is_ordered-raise rest {top = s.vpindex} {top' = top},
    )

-- Nothing is covered from `top` on.
covers-above :
    (top i : ℕ) (segs : List Segment) → is_ordered top segs ≡ true → top ≤ i → covers i segs ≡ false
unfolding is_ordered covers
covers-above top i [] e h = refl
covers-above top i (s ∷ rest) e h = ground (arith, covers-above s.vpindex i rest)

covers-if :
    (i : ℕ) (b : Bool) (l m : List Segment)
    → covers i (if b then l else m) ≡ (if b then covers i l else covers i m)
covers-if i true l m = refl
covers-if i false l m = refl

-- What is left of one segment, on `below` a rest that keeps the pages outside of the range.
covers-pieces :
    (vpi vpi2 i a n : ℕ) (below : Bool)
    → vpi ≤ vpi2
    → a + n < 2 ^ 64
    → let past = add64 a n in
      let rest = below && not (in_range i vpi vpi2) in
      (if leb vpi2 a || leb past vpi
        then in_range i a (a + n) || rest
        else if ltb a vpi && ltb vpi2 past
        then in_range i vpi2 (vpi2 + sub64 past vpi2) || (in_range i a (a + sub64 vpi a) || rest)
        else if leb vpi a && leb past vpi2
        then rest
        else if ltb vpi2 past
        then in_range i vpi2 (vpi2 + sub64 past vpi2) || rest
        else if ltb a vpi
        then in_range i a (a + sub64 vpi a) || rest
        else in_range i a (a + n) || rest)
      ≡ ((in_range i a (a + n) || below) && not (in_range i vpi vpi2))
covers-pieces vpi vpi2 i a n true le small = ground arith
covers-pieces vpi vpi2 i a n false le small = ground arith

-- After a range is unmapped, a page is covered if it was before and does not lie in the range.
pub covers-cut :
    (vpi vpi2 top i : ℕ) (segs : List Segment)
    → vpi ≤ vpi2
    → top < 2 ^ 64
    → is_ordered top segs ≡ true
    → covers i (cut vpi vpi2 segs) ≡ (covers i segs && not (in_range i vpi vpi2))
unfolding cut is_ordered covers
covers-cut vpi vpi2 top i [] le small e = refl
covers-cut vpi vpi2 top i (s ∷ segs) le small e =
    let below : covers i (cut vpi vpi2 segs) ≡ (covers i segs && not (in_range i vpi vpi2)) =
      covers-cut vpi vpi2 s.vpindex i segs le (ground arith) (ground arith) in
    rw (covers-if i, covers-if i, covers-if i, covers-if i, covers-if i, covers, below)
      (covers-pieces vpi vpi2 i s.vpindex s.vpcnt (covers i segs) le (ground arith))

-- A segment that alloc_mmap places, and that does not run below address 0, keeps the list in order.
pub place-is_ordered :
    (vpcnt top : ℕ) (info : List ℕ) (segs : List Segment)
    → top < 2 ^ 62
    → vpcnt < 2 ^ 62
    → (place vpcnt info top segs).0 < 2 ^ 62
    → is_ordered top segs ≡ true
    → is_ordered top (place vpcnt info top segs).1 ≡ true
unfolding place is_ordered
place-is_ordered vpcnt top info [] small c fits e = ground arith
place-is_ordered vpcnt top info (s ∷ rest) small c fits e =
    ground (arith, place-is_ordered vpcnt s.vpindex info rest)

place-below :
    (vpcnt top : ℕ) (info : List ℕ) (segs : List Segment)
    → top < 2 ^ 62
    → vpcnt < 2 ^ 62
    → (place vpcnt info top segs).0 < 2 ^ 62
    → is_ordered top segs ≡ true
    → (place vpcnt info top segs).0 + vpcnt ≤ top
unfolding place is_ordered
place-below vpcnt top info [] small c fits e = ground arith
place-below vpcnt top info (s ∷ rest) small c fits e =
    ground (arith, place-below vpcnt s.vpindex info rest)

-- The pages that are mapped afterwards are those from before and those of the new segment, and
-- these were not mapped before.
pub covers-place :
    (vpcnt top i : ℕ) (info : List ℕ) (segs : List Segment)
    → top < 2 ^ 62
    → vpcnt < 2 ^ 62
    → (place vpcnt info top segs).0 < 2 ^ 62
    → is_ordered top segs ≡ true
    → let first = (place vpcnt info top segs).0 in
      (covers i (place vpcnt info top segs).1 ≡ (covers i segs || in_range i first (first + vpcnt)))
      × ((covers i segs && in_range i first (first + vpcnt)) ≡ false)
unfolding place is_ordered covers
covers-place vpcnt top i info [] small c fits e = ground arith
covers-place vpcnt top i info (s ∷ rest) small c fits e = ground (
  arith,
  covers-place vpcnt s.vpindex i info rest,
  place-below vpcnt s.vpindex info rest,
  covers-above s.vpindex i rest,
)
