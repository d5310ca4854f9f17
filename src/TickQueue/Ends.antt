-- ===== src/TickQueue/Ends.antt =====
-- The two ends of the queue, push and pop, against the lists; and what a cycle keeps.
use nullrvsim.Prelude.{
  ℕ, suc, ◌+◌, ◌-◌, ◌%◌, ◌<◌, ◌≡◌, refl, sym, ap, ap₂, ◌∙◌, ltb, ltb→lt, ◌==◌, ==_iff, ◌⊎◌,
  Bool-cases, inl, inr, true, some, none, [], ◌∷◌, ◌++◌, length, set, get_or, get_or-set_self,
  arith,
}
use nullrvsim.Prelude.Words.{add32, sub32}
use native.Mathlib.Nat.{mod-lt, mod-eq_of_lt, mod-add-mod}
use nullrvsim.TickQueue.{Queue, push, pop, top}
use nullrvsim.TickQueue.Inv.{IsValid, after_pop}
use nullrvsim.TickQueue.Model
use nullrvsim.TickQueue.Model.{
  Model, fill, fill_lem, tick, splice_q_pop, splice_push_pop, splice_push_q,
}
use nullrvsim.TickQueue.Refine.{stages}
use nullrvsim.TickQueue.Window.{
  window, window-eq, window-mod, window-add, window-set_past, window-none, window_of_pos,
  length-window,
}

module _ {ℓ} {A : Type ℓ} (d : A) where
  -- The slot that `push` writes is the one behind the input stage.
  ptr-after : {r : Queue A} → IsValid r → r.ptr ≡ (r.push_bottom + r.push_sz) % r.len
  ptr-after {r} v =
      v.ptr_at
      ∙ ap (λ t. t % r.len) (omega arith)
      ∙ sym (mod-add-mod (r.bottom + (r.pop_sz + r.q_sz)) r.len r.push_sz)
      ∙ ap (λ t. (t + r.push_sz) % r.len) (sym v.push_at)

  -- Writing at index `b + s` leaves the windows below `s` alone.
  push-keeps :
      {r : Queue A} (x : A)
      → IsValid r
      → r.push_sz < r.iwid
      → (k n i : ℕ) → i ≡ (r.bottom + k) % r.len
      → k + n < suc (r.pop_sz + r.q_sz + r.push_sz)
      → window d r.len (set r.buf r.ptr x) i n ≡ window d r.len r.buf i n
  push-keeps {r} x v h k n i e le =
      let s : ℕ = r.pop_sz + r.q_sz + r.push_sz in
      ap₂ (λ p j. window d r.len (set r.buf p x) j n) v.ptr_at e
      ∙ window-mod d r.len (set r.buf ((r.bottom + s) % r.len) x) (r.bottom + k) n
      ∙ window-set_past d r.len r.buf r.bottom k n s x v.bottom_in (omega arith) (omega arith)
      ∙ sym (window-mod d r.len r.buf (r.bottom + k) n)
      ∙ ap (λ j. window d r.len r.buf j n) (sym e)

  push-last :
      {r : Queue A} (x : A)
      → IsValid r
      → r.push_sz < r.iwid
      → window d r.len (set r.buf r.ptr x) r.push_bottom (r.push_sz + 1)
        ≡ window d r.len r.buf r.push_bottom r.push_sz ++ x ∷ []
  push-last {r} x v h =
      let buf' = set r.buf r.ptr x in
      let ptr_in : r.ptr < length r.buf = omega (
        arith,
        v.ptr_at,
        mod-lt (r.bottom + (r.pop_sz + r.q_sz + r.push_sz)) {m = r.len} (omega arith),
      ) in
      window-add d r.len buf' r.push_bottom r.push_sz 1
      ∙ ap₂ ◌++◌
          (push-keeps x v h (r.pop_sz + r.q_sz) r.push_sz r.push_bottom v.push_at (omega arith))
          (window_of_pos d r.len buf' (r.push_bottom + r.push_sz) 1 (omega arith)
            ∙ ap₂ ◌∷◌
                (ap (λ i. get_or buf' i d) (sym (ptr-after v))
                  ∙ get_or-set_self r.buf r.ptr x d ptr_in)
                (window-none d r.len buf' (r.push_bottom + r.push_sz + 1) (1 - 1) refl))

  -- A push appends to the input stage, or is refused when that is full; the other stages stay.
  pub stages-push :
      {r : Queue A} (x : A)
      → IsValid r
      → ((push x r).0, stages d (push x r).1) ≡ Model.push r.iwid x (stages d r)
  unfolding push Model.push
  stages-push {r} x v = elim (Bool-cases (ltb r.push_sz r.iwid)) [
    | inl room ↦
        let h : r.push_sz < r.iwid = ltb→lt _ _ room in
        rw (room, length-window d r.len r.buf r.push_bottom r.push_sz, room)
          (λ i. (
            true,
            record {
              pop_buf = push-keeps x v h 0 r.pop_sz r.bottom (at_bottom v) (omega arith) i;
              q = push-keeps x v h r.pop_sz r.q_sz r.q_bottom v.q_at (omega arith) i;
              push_buf =
                  (window-eq d r.len (set r.buf r.ptr x) refl (one_more v) ∙ push-last x v h) i;
            },
          ))
    | inr full ↦ rw (full, length-window d r.len r.buf r.push_bottom r.push_sz, full)
  ]
    where
      at_bottom : IsValid r → r.bottom ≡ (r.bottom + 0) % r.len
      at_bottom v = sym (ap (λ t. t % r.len) (omega arith) ∙ mod-eq_of_lt v.bottom_in)

      one_more : IsValid r → add32 r.push_sz 1 ≡ r.push_sz + 1
      one_more v = omega arith

  -- What a pop takes and what it leaves of the output stage.
  head-rest :
      {r : Queue A}
      → IsValid r
      → 0 < r.pop_sz
      → (stages d r).pop_buf ≡ get_or r.buf r.bottom d ∷ (stages d (after_pop r)).pop_buf
  head-rest {r} v h =
      window_of_pos d r.len r.buf r.bottom r.pop_sz h
      ∙ ap₂ ◌∷◌ (ap (λ i. get_or r.buf i d) (mod-eq_of_lt v.bottom_in)) (
          window-eq d r.len r.buf {h = r.bottom + 1} {h' = add32 r.bottom 1} (omega arith)
            (omega arith)
          ∙ sym (window-mod d r.len r.buf (add32 r.bottom 1) (sub32 r.pop_sz 1)))

  -- `top` and `pop` together take the head of the output stage; both fail exactly when it is empty.
  pub stages-pop :
      {r : Queue A}
      → IsValid r
      → ((top d r ≡ none) × (pop r ≡ none) × (Model.pop (stages d r) ≡ none))
        ⊎ ((x : A) × (s : Queue A) × (top d r ≡ some x)
            × (pop r ≡ some s)
            × (Model.pop (stages d r) ≡ some (x, stages d s)))
  unfolding top pop Model.pop
  stages-pop {r} v = elim (Bool-cases (r.pop_sz == 0)) [
    | inl nothing ↦
        let e = window-none d r.len r.buf r.bottom r.pop_sz ((==_iff r.pop_sz 0).0 nothing) in
        inl (rw nothing, rw nothing, rw (e, Model.pop))
    | inr something ↦
        let h : 0 < r.pop_sz = ground arith in
        inr (
          get_or r.buf r.bottom d,
          after_pop r,
          rw something,
          rw something,
          rw (head-rest v h) refl,
        )
  ]
