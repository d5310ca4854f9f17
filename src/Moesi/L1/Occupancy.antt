-- ===== src/Moesi/L1/Occupancy.antt =====
-- Where a line of the first-level cache is, in the block or in a miss register, and how the small
-- steps of src/cache/moesi/l1cachev2.h change that.
use nullrvsim.Prelude.{
  ℕ, ◌<◌, ◌≡◌, refl, Bool, true, false, ltb, ◌==◌, ◌&&◌, if◌then◌else◌, Option, none, some, length,
  length-set, arith,
}
use nullrvsim.Prelude.Assoc.{find, erase, assign}
use nullrvsim.Cache.Lru
use nullrvsim.Cache.Lru.{Block, set_index, set_of}
use nullrvsim.Cache.Lookup.{lookup, IsWhole}
use nullrvsim.Cache.Replace.{lookup-assign, lookup-remove_line, lookup-insert_line, is_victim}
use nullrvsim.Moesi.L1.{Cache, Line, Entry, put_line}
use nullrvsim.Moesi.L1.Forward.{Handled, failed, later, done}

-- Not both.
abbrev pub apart : Option Line → Option Entry → Bool
apart none e = true
apart (some p) none = true
apart (some p) (some e) = false

abbrev pub sound_at : ℕ → Cache → Bool
sound_at k r =
    ltb (set_index r.block k) (length r.block.sets)
    && apart (lookup r.block k) (find k r.mshrs.hashmap)

-- Every line has a set, and none is both in the block and in a miss register.
abbrev pub IsSeparate : Cache → Type 0
IsSeparate r = (k : ℕ) → sound_at k r ≡ true

-- The same at one line after a handler; a handler that fails has no cache.
abbrev pub sound_after : ℕ → Cache → Handled → Bool
sound_after k r failed = true
sound_after k r later = sound_at k r
sound_after k r (done s) = sound_at k s

pub IsSeparate-IsWhole : (r : Cache) → IsSeparate r → IsWhole r.block
IsSeparate-IsWhole r h k = ground (arith, h k)

-- Where a line is in the block and whether it has a set, when another line is written, ...
pub put_line-lookup :
    (l k : ℕ) (p : Line) (r : Cache)
    → IsSeparate r
    → (lookup (put_line l p r).block k ≡ (if k == l then some p else lookup r.block k))
      × (set_index (put_line l p r).block k < length (put_line l p r).block.sets)
unfolding put_line
put_line-lookup l k p r h = (
  lookup-assign l k p r.block (IsSeparate-IsWhole r h),
  ground
      (arith, h k, length-set r.block.sets (set_index r.block l) (assign l p (set_of r.block l))),
)

pub put_line-mshrs : (l : ℕ) (p : Line) (r : Cache) → (put_line l p r).mshrs ≡ r.mshrs
unfolding put_line
put_line-mshrs l p r = refl

-- ... when one is removed, ...
pub remove_line-lookup :
    (l k : ℕ) (c : Block Line)
    → IsWhole c
    → (lookup (Lru.remove_line l c) k ≡ (if k == l then none else lookup c k))
      × (set_index (Lru.remove_line l c) k < length (Lru.remove_line l c).sets)
unfolding Lru.remove_line
remove_line-lookup l k c whole = (
  lookup-remove_line l k c whole,
  ground (arith, whole k, length-set c.sets (set_index c l) (erase l (set_of c l))),
)

-- ... and when one is inserted.
pub insert_line-lookup :
    (l k : ℕ) (p : Line) (c : Block Line) {replaced : Option (ℕ × Line)} {c' : Block Line}
    → IsWhole c
    → Lru.insert_line l p c ≡ some (replaced, c')
    → (lookup c' k ≡ (if k == l then some p else if is_victim replaced k then none else lookup c k))
      × (set_index c' k < length c'.sets)
unfolding Lru.insert_line Lru.remove_line
insert_line-lookup l k p c whole e =
    (lookup-insert_line l k p c whole e, grind (arith, whole k, length-set))
