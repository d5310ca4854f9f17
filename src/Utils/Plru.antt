-- ===== src/Utils/Plru.antt =====
-- src/utils/replacer.hpp: ReplacerPLRU<AddrWidth, WayCnt>. `aw` is AddrWidth and the number of ways is
-- 2 ^ level. Each set has a tree of bits: bit `i` tells which child of node `i` to take, and node 1 is
-- the root.
use nullrvsim.Prelude.{
  ℕ, zero, suc, ◌+◌, ◌-◌, ◌*◌, ◌/◌, ◌%◌, ◌^◌, bit_and, Bool, false, ◌==◌, if◌then◌else◌, List, [],
  ◌∷◌, ◌++◌, get_or, set,
}

pub record ReplacerPlru : Type 0 where
  pub bitree_left_hot_table : List (List Bool)
  pub to_be_touched : List (ℕ × ℕ)

-- The loop of `victim`.
unfoldable pub descend : ℕ → ℕ → List Bool → ℕ
descend zero i tree = i
descend (suc n) i tree = descend n (i * 2 + (if get_or tree i false then 1 else 0)) tree

-- The inner loop of `apply_next_tick`.
unfoldable pub ascend : ℕ → ℕ → List Bool → List Bool
ascend zero idx tree = tree
ascend (suc n) idx tree = ascend n (idx / 2) (set tree (idx / 2) (idx % 2 == 0))

module _ (aw level : ℕ) where
  abbrev pub set_index : ℕ → ℕ
  set_index addr = bit_and addr (2 ^ aw - 1)

  unfoldable pub touch : ℕ → ℕ → ReplacerPlru → ReplacerPlru
  touch addr idx r = record r {
    to_be_touched = r.to_be_touched ++ (addr, bit_and idx (2 ^ level - 1)) ∷ [];
  }

  unfoldable pub victim : ℕ → ReplacerPlru → ℕ
  victim addr r = descend level 1 (get_or r.bitree_left_hot_table (set_index addr) []) - 2 ^ level

  unfoldable pub touch_entry : ℕ → ℕ → List (List Bool) → List (List Bool)
  touch_entry addr idx table =
      set table (set_index addr) (ascend level (idx + 2 ^ level) (get_or table (set_index addr) []))

  unfoldable pub touch_all : List (ℕ × ℕ) → List (List Bool) → List (List Bool)
  touch_all [] table = table
  touch_all ((addr, idx) ∷ rest) table = touch_all rest (touch_entry addr idx table)

  -- What is to be touched stays, and is touched again in the next cycle.
  unfoldable pub apply_next_tick : ReplacerPlru → ReplacerPlru
  apply_next_tick r = record r {
    bitree_left_hot_table = touch_all r.to_be_touched r.bitree_left_hot_table;
  }
