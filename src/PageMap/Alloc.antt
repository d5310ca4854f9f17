-- ===== src/PageMap/Alloc.antt =====
-- PhysPageAllocator. Its lock is taken and released inside each method, so that a method is one
-- step; `none` is a failed assertion.
use nullrvsim.Prelude.{
  ℕ, zero, suc, ◌+◌, ◌-◌, ◌/◌, ◌%◌, ◌^◌, Bool, true, false, ltb, leb, ◌==◌, ◌&&◌, if◌then◌else◌,
  Option, none, some, List, [], ◌∷◌, ◌++◌,
}
use nullrvsim.Prelude.Words.{add64, sub64}
use nullrvsim.Prelude.Assoc.{find, erase, insert, assign}

-- `valid_pages` is a list taken from its front, `alloced_pages` maps a page to its count, and
-- `page_real_addr` a page to its place in the host's memory.
pub record Allocator : Type 0 where
  pub page_real_addr : List (ℕ × ℕ)
  pub valid_pages : List ℕ
  pub alloced_pages : List (ℕ × ℕ)

-- The loop of init_segment, of at most `fuel` pages; size / 4096 of them pass the test.
unfoldable pub add_pages : ℕ → ℕ → ℕ → ℕ → ℕ → Allocator → Allocator
add_pages zero ppa start size p_mem r = r
add_pages (suc fuel) ppa start size p_mem r =
    let page = ppa / 2 ^ 12 in
    let rest = add_pages fuel (add64 ppa 4096) start size p_mem (record r {
      valid_pages = r.valid_pages ++ page ∷ [];
      page_real_addr = insert page (add64 p_mem (sub64 ppa start)) r.page_real_addr;
    }) in
    if leb (add64 ppa 4096) (add64 start size) then rest else r

unfoldable pub init_segment : ℕ → ℕ → ℕ → Allocator → Option Allocator
init_segment start size p_mem r =
    if start % 4096 == 0 && size % 4096 == 0
    then some (add_pages (size / 4096) start start size p_mem r)
    else none

unfoldable pub real_addr_of : ℕ → Allocator → Option ℕ
real_addr_of ppindex r = find ppindex r.page_real_addr

unfoldable pub alloc : Allocator → Option (ℕ × Allocator)
alloc r = elim r.valid_pages [
  | [] ↦ none
  | page ∷ rest ↦
      some (page, record r { valid_pages = rest; alloced_pages = insert page 1 r.alloced_pages })
]

unfoldable pub reuse : ℕ → Allocator → Option Allocator
reuse ppindex r = elim (find ppindex r.alloced_pages) [
  | none ↦ none
  | some n ↦ some (record r { alloced_pages = assign ppindex ((n + 1) % 2 ^ 32) r.alloced_pages })
]

-- The answer is true when the last reference went.
unfoldable pub free : ℕ → Allocator → Option (Bool × Allocator)
free ppindex r = elim (find ppindex r.alloced_pages) [
  | none ↦ none
  | some n ↦
      if leb n 1
      then some (true, record r { alloced_pages = erase ppindex r.alloced_pages })
      else some (false, record r { alloced_pages = assign ppindex (n - 1) r.alloced_pages })
]

unfoldable pub is_shared : ℕ → Allocator → Bool
is_shared ppindex r = elim (find ppindex r.alloced_pages) [ none ↦ false | some n ↦ ltb 1 n ]
