-- ===== src/TickList/Limited.antt =====
-- LimitedTickList<T>.
use nullrvsim.Prelude.{
  ℕ, ◌+◌, ◌-◌, ◌^◌, Bool, true, false, ltb, ◌==◌, ◌&&◌, if◌then◌else◌, Option, none, some, List, [],
  ◌∷◌, ◌++◌, length,
}

pub record Limited {ℓ} (A : Type ℓ) : Type ℓ where
  pub iwid : ℕ
  pub qsize : ℕ
  pub push_buf : List A
  pub q : List A

module _ {ℓ} {A : Type ℓ} where
  -- `none` where an assertion fails.
  unfoldable pub init : ℕ → ℕ → Option (Limited A)
  init input_wid queue_size =
      if ltb 0 input_wid && ltb input_wid (2 ^ 30)
      then some (record { iwid = input_wid; qsize = queue_size; push_buf = []; q = [] })
      else none

  unfoldable pub can_push : Limited A → ℕ
  can_push r =
      if ltb (length r.push_buf) r.iwid && ltb (length r.push_buf + length r.q) r.qsize
      then r.iwid - length r.push_buf
      else 0

  unfoldable pub push_next_tick : A → Limited A → Bool × Limited A
  push_next_tick v r =
      if can_push r == 0 then (false, r) else (true, record r { push_buf = r.push_buf ++ v ∷ [] })

  unfoldable pub apply_next_tick : Limited A → Limited A
  apply_next_tick r = record r { q = r.q ++ r.push_buf; push_buf = [] }

  unfoldable pub size : Limited A → ℕ
  size r = length r.q + length r.push_buf

  unfoldable pub cur_size : Limited A → ℕ
  cur_size r = length r.q

  unfoldable pub empty : Limited A → Bool
  empty r = length r.q == 0 && length r.push_buf == 0

  -- `front` and `pop_front`, undefined on an empty list.
  unfoldable pub front : Limited A → Option A
  front r = elim r.q [ [] ↦ none | x ∷ rest ↦ some x ]

  unfoldable pub pop_front : Limited A → Option (Limited A)
  pop_front r = elim r.q [ [] ↦ none | x ∷ rest ↦ some (record r { q = rest }) ]

  unfoldable pub clear : Limited A → Limited A
  clear r = record r { q = []; push_buf = [] }

  -- clear with a list to append to.
  unfoldable pub clear_to : List A → Limited A → List A × Limited A
  clear_to to_free r = (to_free ++ r.q ++ r.push_buf, record r { q = []; push_buf = [] })
