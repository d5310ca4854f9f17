-- ===== src/TickList/Plain.antt =====
-- TickList<T>: as LimitedTickList, without limits.
use nullrvsim.Prelude.{
  ℕ, ◌+◌, Bool, ◌==◌, ◌&&◌, true, Option, none, some, List, [], ◌∷◌, ◌++◌, length,
}

pub record Plain {ℓ} (A : Type ℓ) : Type ℓ where
  pub push_buf : List A
  pub q : List A

module _ {ℓ} {A : Type ℓ} where
  unfoldable pub push_next_tick : A → Plain A → Bool × Plain A
  push_next_tick v r = (true, record r { push_buf = r.push_buf ++ v ∷ [] })

  unfoldable pub apply_next_tick : Plain A → Plain A
  apply_next_tick r = record { q = r.q ++ r.push_buf; push_buf = [] }

  unfoldable pub size : Plain A → ℕ
  size r = length r.q + length r.push_buf

  unfoldable pub cur_size : Plain A → ℕ
  cur_size r = length r.q

  unfoldable pub empty : Plain A → Bool
  empty r = length r.q == 0 && length r.push_buf == 0

  unfoldable pub front : Plain A → Option A
  front r = elim r.q [ [] ↦ none | x ∷ rest ↦ some x ]

  unfoldable pub pop_front : Plain A → Option (Plain A)
  pop_front r = elim r.q [ [] ↦ none | x ∷ rest ↦ some (record r { q = rest }) ]

  unfoldable pub clear : Plain A → Plain A
  clear r = record { q = []; push_buf = [] }

  unfoldable pub clear_to : List A → Plain A → List A × Plain A
  clear_to to_free r = (to_free ++ r.q ++ r.push_buf, record { q = []; push_buf = [] })
