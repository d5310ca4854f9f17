-- ===== src/PageMap/Refcount.antt =====
-- The reference counts of physical pages.
use nullrvsim.Prelude.{ℕ, ◌+◌, ◌-◌, ◌%◌, ◌^◌, ◌<◌, ◌≡◌, true, false, none, some, arith}
use native.Mathlib.Decide.{ℕ_discrete}
use nullrvsim.Prelude.Assoc.{find, assign, find-assign_self, find-assign_ne}
use nullrvsim.PageMap.Alloc.{Allocator, reuse, free, is_shared}

-- The count of a page, 0 for a page that is not allocated.
unfoldable pub count : ℕ → Allocator → ℕ
count page r = elim (find page r.alloced_pages) [ none ↦ 0 | some n ↦ n ]

-- A further reference to a page makes it shared; dropping one again says that references are left
-- and restores the counts of all pages, as long as the count fits in 32 bits.
pub free-reuse :
    (page : ℕ) (r : Allocator) {n : ℕ}
    → find page r.alloced_pages ≡ some n
    → 0 < n
    → n + 1 < 2 ^ 32
    → (s : Allocator) × (u : Allocator) × (reuse page r ≡ some s)
      × (is_shared page s ≡ true)
      × (free page s ≡ some (false, u))
      × ((k : ℕ) → count k u ≡ count k r)
unfolding reuse free is_shared count
free-reuse page r {n} e h small = (
  s,
  u,
  ground arith,
  ground (arith, find-assign_self page more r.alloced_pages),
  ground (arith, find-assign_self page more r.alloced_pages),
  same,
)
  where
    more : ℕ
    more = (n + 1) % 2 ^ 32

    s : Allocator
    s = record r { alloced_pages = assign page more r.alloced_pages }

    u : Allocator
    u = record s { alloced_pages = assign page (more - 1) s.alloced_pages }

    same : (k : ℕ) → count k u ≡ count k r
    same k = elim (ℕ_discrete k page) [
      | yes p ↦ ground (arith, find-assign_self page (more - 1) s.alloced_pages)
      | no p ↦ ground (
        arith,
        find-assign_ne page k (more - 1) s.alloced_pages p,
        find-assign_ne page k more r.alloced_pages p,
      )
    ]
