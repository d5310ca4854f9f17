-- ===== src/Cache/Tests.antt =====
-- A block of two sets with two lines each, a table of two registers, and the theorems at them.
use nullrvsim.Prelude.{ℕ, ◌≡◌, refl, ◌==◌, if◌then◌else◌, none, some, [], ◌∷◌, arith}
use nullrvsim.Prelude.Bits.{bit_and-mask}
use nullrvsim.Prelude.Assoc.{find, insert, erase}
use nullrvsim.Prelude.Sets.{remove_all}
use nullrvsim.Cache.Lru.{Block, insert_line, remove_line, remove_first, get_line, back}
use nullrvsim.Cache.Mshr
use nullrvsim.Cache.Mshr.{Mshr}
use nullrvsim.Cache.Lookup.{lookup, IsWhole}
use nullrvsim.Cache.Replace.{is_victim, lookup-insert_line}

-- The even set is full; line 2 was used last.
abbrev even_full : Block ℕ
even_full = record {
  set_count = 2;
  line_per_set = 2;
  sets = ((2, 20) ∷ (4, 40) ∷ []) ∷ ((1, 10) ∷ []) ∷ [];
  lrus = (2 ∷ 4 ∷ []) ∷ (1 ∷ []) ∷ [];
  pinned_line = [];
}

even_full-IsWhole : IsWhole even_full
even_full-IsWhole k = omega (arith, bit_and-mask 1 k)

-- Line 6 takes the place of line 4.
abbrev replaced_block : Block ℕ
replaced_block = record even_full {
  sets = ((6, 60) ∷ (2, 20) ∷ []) ∷ ((1, 10) ∷ []) ∷ [];
  lrus = (6 ∷ 2 ∷ []) ∷ (1 ∷ []) ∷ [];
}

insert-six : insert_line 6 60 even_full ≡ some (some (4, 40), replaced_block)
unfolding insert_line get_line remove_line remove_all remove_first back find insert erase
insert-six = refl

lookup-insert_line_example : lookup replaced_block 2 ≡ (
    if 2 == 6
    then some 60
    else if is_victim {P = ℕ} (some (4, 40)) 2
    then none
    else lookup even_full 2)
lookup-insert_line_example = lookup-insert_line 6 2 60 even_full even_full-IsWhole insert-six

-- One register of two in use.
abbrev one_miss : Mshr ℕ
one_miss = record { max_sz = 2; hashmap = (5, 50) ∷ [] }

abbrev two_misses : Mshr ℕ
two_misses = record { max_sz = 2; hashmap = (9, 0) ∷ (5, 50) ∷ [] }

alloc-nine : Mshr.alloc 0 9 one_miss ≡ some two_misses
unfolding Mshr.alloc find insert
alloc-nine = refl
