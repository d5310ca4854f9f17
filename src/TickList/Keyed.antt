-- ===== src/TickList/Keyed.antt =====
-- TickMap<K, T> for keys that are numbers. The order in which clear lists the map's entries is that
-- of the association list; the source leaves it open.
use nullrvsim.Prelude.{ℕ, ◌+◌, Bool, ◌==◌, ◌&&◌, List, [], ◌∷◌, ◌++◌, length}
use nullrvsim.Prelude.Assoc.{assign}

pub record Keyed {ℓ} (A : Type ℓ) : Type ℓ where
  pub push_buf : List (ℕ × A)
  pub m : List (ℕ × A)

module _ {ℓ} {A : Type ℓ} where
  -- `for(auto &entry : push_buf) m[entry.first] = entry.second;`
  unfoldable pub assign_all : List (ℕ × A) → List (ℕ × A) → List (ℕ × A)
  assign_all [] m = m
  assign_all ((k, a) ∷ rest) m = assign_all rest (assign k a m)

  unfoldable pub apply_next_tick : Keyed A → Keyed A
  apply_next_tick r = record { m = assign_all r.push_buf r.m; push_buf = [] }

  unfoldable pub push_next_tick : ℕ → A → Keyed A → Keyed A
  push_next_tick k v r = record r { push_buf = r.push_buf ++ (k, v) ∷ [] }

  unfoldable pub empty : Keyed A → Bool
  empty r = length r.m == 0 && length r.push_buf == 0

  unfoldable pub size : Keyed A → ℕ
  size r = length r.m + length r.push_buf

  unfoldable pub cur_size : Keyed A → ℕ
  cur_size r = length r.m

  unfoldable pub clear : Keyed A → Keyed A
  clear r = record { m = []; push_buf = [] }

  unfoldable pub clear_to : List (ℕ × A) → Keyed A → List (ℕ × A) × Keyed A
  clear_to to_free r = (to_free ++ r.m ++ r.push_buf, record { m = []; push_buf = [] })
