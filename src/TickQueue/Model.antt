-- ===== src/TickQueue/Model.antt =====
-- The list form of the queue, which src/tickqueue.h keeps in a comment below the circular one:
-- three lists, and apply_next_tick as three loops that splice from the front of one to the end of
-- another. It is what the circular buffer promises.
use nullrvsim.Prelude.{
  ℕ, zero, suc, ◌-◌, ◌≤◌, ◌≡◌, ◌∙◌, ap, refl, Bool, true, false, ltb, ◌==◌, if◌then◌else◌, Option,
  none, some, List, [], ◌∷◌, ◌++◌, length, take, drop, arith, append-nil, append_assoc,
  length-append, take-append-drop,
}

pub record Model {ℓ} (A : Type ℓ) : Type ℓ where
  pub pop_buf : List A
  pub q : List A
  pub push_buf : List A

module _ {ℓ} {A : Type ℓ} where
  -- `while(dst.size() < cap && !src.empty()) dst.splice(dst.end(), src, src.begin());`
  unfoldable pub fill : ℕ → List A → List A → List A × List A
  fill cap dst [] = (dst, [])
  fill cap dst (x ∷ src) =
      let rest = fill cap (dst ++ x ∷ []) src in
      if ltb (length dst) cap then rest else (dst, x ∷ src)

  -- The three loops of apply_next_tick.
  unfoldable pub splice_q_pop : ℕ → Model A → Model A
  splice_q_pop owid m = let r = fill owid m.pop_buf m.q in record m { pop_buf = r.0; q = r.1 }

  unfoldable pub splice_push_pop : ℕ → Model A → Model A
  splice_push_pop owid m =
      let r = fill owid m.pop_buf m.push_buf in record m { pop_buf = r.0; push_buf = r.1 }

  unfoldable pub splice_push_q : ℕ → Model A → Model A
  splice_push_q qsize m = let r = fill qsize m.q m.push_buf in record m { q = r.0; push_buf = r.1 }

  -- The first and the third loop stand under `if(qsize)`.
  unfoldable pub tick : ℕ → ℕ → Model A → Model A
  tick owid qsize m =
      if qsize == 0
      then splice_push_pop owid m
      else splice_push_q qsize (splice_push_pop owid (splice_q_pop owid m))

  unfoldable pub push : ℕ → A → Model A → Bool × Model A
  push iwid v m =
      if ltb (length m.push_buf) iwid
      then (true, record m { push_buf = m.push_buf ++ v ∷ [] })
      else (false, m)

  -- `top` and `pop` together: the head of the output list, and the rest.
  unfoldable pub pop : Model A → Option (A × Model A)
  pop m = elim m.pop_buf [ [] ↦ none | x ∷ rest ↦ some (x, record m { pop_buf = rest }) ]

  -- All that is in flight, the next entry to leave first.
  abbrev pub contents : Model A → List A
  contents m = m.pop_buf ++ (m.q ++ m.push_buf)

  fill_room :
      (n cap : ℕ) (dst src : List A)
      → cap - length dst ≡ n
      → fill cap dst src ≡ (dst ++ take n src, drop n src)
  unfolding fill
  fill_room zero cap dst [] h = ground (arith, append-nil dst)
  fill_room (suc n) cap dst [] h = ground (arith, append-nil dst)
  fill_room zero cap dst (x ∷ src) h = ground (arith, append-nil dst)
  fill_room (suc n) cap dst (x ∷ src) h = ground (
    arith,
    fill_room n cap (dst ++ x ∷ []) src,
    length-append dst (x ∷ []),
    append_assoc dst (x ∷ []) (take n src),
  )

  -- The loop moves as many entries as there is room for.
  pub fill_lem :
      (cap : ℕ) (dst src : List A)
      → fill cap dst src ≡ (dst ++ take (cap - length dst) src, drop (cap - length dst) src)
  fill_lem cap dst src = fill_room (cap - length dst) cap dst src refl

  -- Into a full list nothing is moved.
  pub fill_full : (cap : ℕ) (dst src : List A) → cap ≤ length dst → fill cap dst src ≡ (dst, src)
  fill_full cap dst src h =
      fill_room 0 cap dst src (omega arith) ∙ ap (λ l. (l, src)) (append-nil dst)

  pub fill-nil : (cap : ℕ) (dst : List A) → fill cap dst [] ≡ (dst, [])
  unfolding fill
  fill-nil cap dst = refl

  contents-fill :
      (cap : ℕ) (dst src rest : List A)
      → (fill cap dst src).0 ++ ((fill cap dst src).1 ++ rest) ≡ dst ++ (src ++ rest)
  contents-fill cap dst src rest =
      let n : ℕ = cap - length dst in
      rw (
        fill_lem cap dst src,
        append_assoc dst (take n src) (drop n src ++ rest),
        ← append_assoc (take n src) (drop n src) rest,
        take-append-drop n src,
      )

  -- What one loop moves from a list to the next, with nothing between them, changes no order.
  contents-splice_q_pop : (owid : ℕ) (m : Model A) → contents (splice_q_pop owid m) ≡ contents m
  unfolding splice_q_pop
  contents-splice_q_pop owid m = contents-fill owid m.pop_buf m.q m.push_buf
