-- ===== src/TickList/Multi.antt =====
-- TickMultiMap<K, T> for keys that are numbers. The order of a multimap with the entries of several
-- keys is one that the source leaves open.
use nullrvsim.Prelude.{
  ℕ, ◌+◌, ◌≡◌, sym, append_assoc, Bool, ◌==◌, ◌&&◌, List, [], ◌∷◌, ◌++◌, length,
}

pub record Multi {ℓ} (A : Type ℓ) : Type ℓ where
  pub push_buf : List (ℕ × A)
  pub m : List (ℕ × A)

module _ {ℓ} {A : Type ℓ} where
  -- `m.emplace(entry)` keeps the entries of the same key.
  unfoldable pub apply_next_tick : Multi A → Multi A
  apply_next_tick r = record { m = r.m ++ r.push_buf; push_buf = [] }

  unfoldable pub push_next_tick : ℕ → A → Multi A → Multi A
  push_next_tick k v r = record r { push_buf = r.push_buf ++ (k, v) ∷ [] }

  unfoldable pub empty : Multi A → Bool
  empty r = length r.m == 0 && length r.push_buf == 0

  unfoldable pub size : Multi A → ℕ
  size r = length r.m + length r.push_buf

  unfoldable pub cur_size : Multi A → ℕ
  cur_size r = length r.m

  unfoldable pub clear : Multi A → Multi A
  clear r = record { m = []; push_buf = [] }

  unfoldable pub clear_to : List (ℕ × A) → Multi A → List (ℕ × A) × Multi A
  clear_to to_free r = (to_free ++ r.m ++ r.push_buf, record { m = []; push_buf = [] })

  -- All that was pushed and not cleared, in the order in which it was.
  pub apply_next_tick-push_next_tick :
      (k : ℕ) (v : A) (r : Multi A)
      → (apply_next_tick (push_next_tick k v r)).m ≡ (apply_next_tick r).m ++ (k, v) ∷ []
  unfolding apply_next_tick push_next_tick
  apply_next_tick-push_next_tick k v r = sym (append_assoc r.m r.push_buf ((k, v) ∷ []))
