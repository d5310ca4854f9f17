-- ===== src/PageMap/Tests.antt =====
-- A small physical memory and a list of two segments, and the theorems at them.
use nullrvsim.Prelude.{◌+◌, ◌≡◌, refl, true, ◌&&◌, not, none, some, List, [], ◌∷◌, length, arith}
use nullrvsim.Prelude.Assoc.{find, erase, insert}
use nullrvsim.PageMap.Alloc.{Allocator, alloc, free}
use nullrvsim.PageMap.Segments.{Segment, place, cut}
use nullrvsim.PageMap.Supply.{Call, call_alloc, call_free, run, step, allocs, run-supply}
use nullrvsim.PageMap.Layout.{is_ordered, in_range, covers, covers-cut}

-- Two free pages, and page 7 allocated.
abbrev memory : Allocator
memory = record {
  page_real_addr = (7, 0) ∷ (8, 4096) ∷ (9, 8192) ∷ [];
  valid_pages = 8 ∷ 9 ∷ [];
  alloced_pages = (7, 1) ∷ [];
}

find-memory : find 7 memory.alloced_pages ≡ some 1
unfolding find
find-memory = refl

abbrev script : List Call
script = call_alloc ∷ call_free 8 ∷ call_alloc ∷ call_free 9 ∷ call_free 7 ∷ []

-- All pages are free again, and none can be allocated.
abbrev exhausted : Allocator
exhausted = record memory { valid_pages = []; alloced_pages = [] }

run-script : run script memory ≡ some exhausted
unfolding run step alloc free find erase insert
run-script = refl

alloc-exhausted : alloc exhausted ≡ none
unfolding alloc
alloc-exhausted = refl

run-supply_example : allocs script + length exhausted.valid_pages ≡ length memory.valid_pages
run-supply_example = run-supply script memory run-script

abbrev mapped : List Segment
mapped =
    record { vpindex = 90; vpcnt = 10; info = [] }
    ∷ record { vpindex = 50; vpcnt = 20; info = [] }
    ∷ []

mapped-is_ordered : is_ordered 100 mapped ≡ true
unfolding is_ordered
mapped-is_ordered = refl

covers-cut_example : covers 57 (cut 55 60 mapped) ≡ (covers 57 mapped && not (in_range 57 55 60))
covers-cut_example = covers-cut 55 60 100 57 mapped (omega arith) (omega arith) mapped-is_ordered

-- Fifteen pages fit between the two segments.
place-mapped : (place 15 [] 100 mapped).0 ≡ 75
unfolding place
place-mapped = refl
