-- ===== src/TickQueue/Refine.antt =====
-- The circular buffer against the three lists: every operation of a valid queue is the operation of
-- the lists that its stages hold.
use nullrvsim.Prelude.{
  ℕ, ◌+◌, ◌-◌, ◌%◌, ◌<◌, ◌≤◌, ◌≡◌, ◌⊎◌, inl, inr, refl, sym, ap, ap₂, ◌∙◌, min, ltb, Bool-cases,
  ==_iff, ◌==◌, if◌then◌else◌, List, ◌++◌, length, take, drop, take-min, drop-min, arith,
}
use nullrvsim.Prelude.Words.{add32, sub32}
use native.Mathlib.Nat.{mod-add-mod, mod-lt, mod-eq_of_lt}
use nullrvsim.TickQueue.{Queue, q_to_pop, push_to_pop, push_to_q, apply_next_tick}
use nullrvsim.TickQueue.Inv.{IsValid, q_to_pop-IsValid, push_to_pop-IsValid, push_to_q-IsValid}
use nullrvsim.TickQueue.Model.{
  Model, fill, fill_lem, fill_full, fill-nil, tick, splice_q_pop, splice_push_pop, splice_push_q,
}
use nullrvsim.TickQueue.Window.{
  window, window-eq, window-mod, window-add, take-window, drop-window, window-none, length-window,
}

module _ {ℓ} {A : Type ℓ} (d : A) where
  -- The three lists that a queue holds.
  abbrev pub stages : Queue A → Model A
  stages r = record {
    pop_buf = window d r.len r.buf r.bottom r.pop_sz;
    q = window d r.len r.buf r.q_bottom r.q_sz;
    push_buf = window d r.len r.buf r.push_bottom r.push_sz;
  }

  -- A stage that starts where another ends, and hands it its first `n` entries.
  module _ (len : ℕ) (buf : List A) (b k : ℕ) where
    take_stage :
        (m n : ℕ)
        → n ≤ m
        → window d len buf b k ++ take n (window d len buf ((b + k) % len) m)
          ≡ window d len buf b (k + n)
    take_stage m n h =
        rw (window-mod d len buf (b + k) m, take-window d len buf (b + k) m n h)
          (sym (window-add d len buf b k n))

    drop_stage :
        (m n : ℕ)
        → n ≤ m
        → drop n (window d len buf ((b + k) % len) m)
          ≡ window d len buf ((b + (k + n)) % len) (m - n)
    drop_stage m n h =
        rw
          (
            window-mod d len buf (b + k) m,
            drop-window d len buf (b + k) m n h,
            window-mod d len buf (b + (k + n)) (m - n),
          )
          (window-eq d len buf (omega arith) refl)

    -- What a loop of the model moves between two adjoining stages.
    fill-stages :
        (cap m n : ℕ)
        → n ≡ min (cap - k) m
        → fill cap (window d len buf b k) (window d len buf ((b + k) % len) m)
          ≡ (window d len buf b (k + n), window d len buf ((b + (k + n)) % len) (m - n))
    fill-stages cap m n e =
        let src = window d len buf ((b + k) % len) m in
        let room : min (cap - length (window d len buf b k)) (length src) ≡ n =
          omega (arith, length-window d len buf b k, length-window d len buf ((b + k) % len) m) in
        rw (fill_lem, take-min, drop-min, room)
          (ap₂ (λ x y. (x, y)) (take_stage m n (omega arith)) (drop_stage m n (omega arith)))

    -- The same, for stages whose bounds are given by equations.
    fill-moved :
        (cap m i k' i' m' : ℕ)
        → i ≡ (b + k) % len
        → k' ≡ k + min (cap - k) m
        → i' ≡ (b + k') % len
        → m' ≡ m - min (cap - k) m
        → fill cap (window d len buf b k) (window d len buf i m)
          ≡ (window d len buf b k', window d len buf i' m')
    fill-moved cap m i k' i' m' ei ek ei' em =
        ap (λ h. fill cap (window d len buf b k) (window d len buf h m)) ei
        ∙ fill-stages cap m (min (cap - k) m) refl
        ∙ ap₂ (λ x y. (x, y)) (window-eq d len buf refl (sym ek))
            (window-eq d len buf (ap (λ t. (b + t) % len) (sym ek) ∙ sym ei') (sym em))

  -- The input stage starts where the main queue ends.
  after_q : {r : Queue A} → IsValid r → r.push_bottom ≡ (r.q_bottom + r.q_sz) % r.len
  after_q {r} v =
      v.push_at
      ∙ ap (λ t. t % r.len) (omega arith)
      ∙ sym (mod-add-mod (r.bottom + r.pop_sz) r.len r.q_sz)
      ∙ ap (λ t. (t + r.q_sz) % r.len) (sym v.q_at)

  q_to_pop-stages :
      {r : Queue A}
      → IsValid r
      → fill r.owid (stages r).pop_buf (stages r).q
        ≡ ((stages (q_to_pop r)).pop_buf, (stages (q_to_pop r)).q)
  unfolding q_to_pop
  q_to_pop-stages {r} v =
      let v' = q_to_pop-IsValid v in
      fill-moved r.len r.buf r.bottom r.pop_sz r.owid r.q_sz r.q_bottom (q_to_pop r).pop_sz
        (q_to_pop r).q_bottom (q_to_pop r).q_sz v.q_at (omega arith) v'.q_at (omega arith)

  push_to_pop-stages :
      {r : Queue A}
      → IsValid r
      → (r.q_sz ≡ 0) ⊎ (r.pop_sz ≡ r.owid)
      → (fill r.owid (stages r).pop_buf (stages r).push_buf
          ≡ ((stages (push_to_pop r)).pop_buf, (stages (push_to_pop r)).push_buf))
        × ((stages (push_to_pop r)).q ≡ (stages r).q)
  unfolding push_to_pop
  push_to_pop-stages {r} v (inl idle) =
      let v' = push_to_pop-IsValid v in
      (
        fill-moved r.len r.buf r.bottom r.pop_sz r.owid r.push_sz r.push_bottom
            (push_to_pop r).pop_sz (push_to_pop r).push_bottom (push_to_pop r).push_sz
            (v.push_at ∙ ap (λ t. (r.bottom + t) % r.len) (omega arith)) (omega arith)
            (v'.push_at ∙ ap (λ t. (r.bottom + t) % r.len) (omega arith)) (omega arith),
        window-none d r.len r.buf (push_to_pop r).q_bottom r.q_sz idle
            ∙ sym (window-none d r.len r.buf r.q_bottom r.q_sz idle),
      )
  push_to_pop-stages {r} v (inr full) =
      let full_list : r.owid ≤ length (stages r).pop_buf =
        omega (arith, length-window d r.len r.buf r.bottom r.pop_sz) in
      let still : (i : ℕ)
          → i < r.len
          → add32 i (min (sub32 r.owid r.pop_sz) r.push_sz) % r.len ≡ i =
        λ i h. ap (λ t. t % r.len) (omega arith) ∙ mod-eq_of_lt h in
      (
        fill_full r.owid (stages r).pop_buf (stages r).push_buf full_list
            ∙ ap₂ (λ x y. (x, y)) (window-eq d r.len r.buf refl (omega arith))
                (window-eq d r.len r.buf (sym (still r.push_bottom (in_range _ v.push_at)))
                  (omega arith)),
        window-eq d r.len r.buf (still r.q_bottom (in_range _ v.q_at)) refl,
      )
    where
      in_range : (k : ℕ) {i : ℕ} → i ≡ k % r.len → i < r.len
      in_range k e = omega (arith, e, mod-lt k {m = r.len} (omega arith))

  push_to_q-stages :
      {r : Queue A}
      → IsValid r
      → (fill r.qsize (stages r).q (stages r).push_buf
          ≡ ((stages (push_to_q r)).q, (stages (push_to_q r)).push_buf))
        × ((stages (push_to_q r)).pop_buf ≡ (stages r).pop_buf)
  unfolding push_to_q
  push_to_q-stages {r} v =
      let v' = push_to_q-IsValid v in
      (
        fill-moved r.len r.buf r.q_bottom r.q_sz r.qsize r.push_sz r.push_bottom (push_to_q r).q_sz
            (push_to_q r).push_bottom (push_to_q r).push_sz (after_q v) (omega arith) (after_q v')
            (omega arith),
        refl,
      )

  -- Each step of the buffer is one loop over the lists.
  stages-q_to_pop : {r : Queue A} → IsValid r → splice_q_pop r.owid (stages r) ≡ stages (q_to_pop r)
  unfolding splice_q_pop q_to_pop
  stages-q_to_pop {r} v = ap (λ p. record (stages r) { pop_buf = p.0; q = p.1 }) (q_to_pop-stages v)

  stages-push_to_pop :
      {r : Queue A}
      → IsValid r
      → (r.q_sz ≡ 0) ⊎ (r.pop_sz ≡ r.owid)
      → splice_push_pop r.owid (stages r) ≡ stages (push_to_pop r)
  unfolding splice_push_pop
  stages-push_to_pop {r} v ready =
      let (moved, kept) = push_to_pop-stages v ready in
      ap₂ (λ p l. record { pop_buf = p.0; q = l; push_buf = p.1 }) moved (sym kept)

  stages-push_to_q :
      {r : Queue A} → IsValid r → splice_push_q r.qsize (stages r) ≡ stages (push_to_q r)
  unfolding splice_push_q push_to_q
  stages-push_to_q {r} v =
      ap (λ p. record (stages r) { q = p.0; push_buf = p.1 }) (push_to_q-stages v).0

  -- With nothing pushed, or no room, the second loop does nothing.
  stages-idle :
      {r : Queue A}
      → IsValid r
      → (r.push_sz ≡ 0) ⊎ (r.pop_sz ≡ r.owid)
      → splice_push_pop r.owid (stages r) ≡ stages r
  unfolding splice_push_pop
  stages-idle {r} v (inl nothing) =
      ap (λ p. record (stages r) { pop_buf = p.0; push_buf = p.1 }) same
    where
      same :
          fill r.owid (stages r).pop_buf (stages r).push_buf
          ≡ ((stages r).pop_buf, (stages r).push_buf)
      same =
          rw (window-none d r.len r.buf r.push_bottom r.push_sz nothing)
            (fill-nil r.owid (stages r).pop_buf)
  stages-idle {r} v (inr full) =
      ap (λ p. record (stages r) { pop_buf = p.0; push_buf = p.1 })
        (fill_full r.owid (stages r).pop_buf (stages r).push_buf
          (omega (arith, length-window d r.len r.buf r.bottom r.pop_sz)))

  -- The second loop only runs when the output stage is full or the main queue is drained.
  q_to_pop-ready :
      {r : Queue A}
      → IsValid r
      → ((q_to_pop r).q_sz ≡ 0) ⊎ ((q_to_pop r).pop_sz ≡ (q_to_pop r).owid)
  unfolding q_to_pop
  q_to_pop-ready {r} v = ground arith

  last_loop :
      (s : Queue A) {m : Model A} {qsize : ℕ}
      → IsValid s
      → s.qsize ≡ qsize
      → m ≡ stages s
      → splice_push_q qsize m ≡ stages (push_to_q s)
  last_loop s v eq e = ap₂ splice_push_q (sym eq) e ∙ stages-push_to_q v

  -- A cycle of the circular buffer is a cycle of the three lists.
  pub stages-apply_next_tick :
      {r : Queue A} → IsValid r → stages (apply_next_tick r) ≡ tick r.owid r.qsize (stages r)
  unfolding apply_next_tick tick q_to_pop push_to_pop
  stages-apply_next_tick {r} v = elim (Bool-cases (r.qsize == 0)) [
    | inl direct ↦ rw direct (sym (direct_cycle ((==_iff r.qsize 0).0 direct)))
    | inr queued ↦ rw queued (sym queued_cycle)
  ]
    where
      direct_cycle :
          r.qsize ≡ 0
          → splice_push_pop r.owid (stages r)
            ≡ stages
                (if r.push_sz == 0 then r else if ltb r.pop_sz r.owid then push_to_pop r else r)
      direct_cycle e = elim (Bool-cases (r.push_sz == 0)) [
        | inl idle ↦ rw idle (stages-idle v (inl ((==_iff r.push_sz 0).0 idle)))
        | inr busy ↦ elim (Bool-cases (ltb r.pop_sz r.owid)) [
          | inl open_ ↦ rw (busy, open_) (stages-push_to_pop v (inl (omega arith)))
          | inr full ↦ rw (busy, full) (stages-idle v (inr (ground arith)))
        ]
      ]

      v₁ : IsValid (q_to_pop r)
      v₁ = q_to_pop-IsValid v

      queued_cycle :
          splice_push_q r.qsize (splice_push_pop r.owid (splice_q_pop r.owid (stages r)))
          ≡ stages (
              push_to_q
                (if (q_to_pop r).push_sz == 0 then q_to_pop r else push_to_pop (q_to_pop r)))
      queued_cycle = elim (Bool-cases ((q_to_pop r).push_sz == 0)) [
        | inl idle ↦
            rw (idle, stages-q_to_pop v)
              (last_loop (q_to_pop r) v₁ refl
                (stages-idle v₁ (inl ((==_iff (q_to_pop r).push_sz 0).0 idle))))
        | inr busy ↦
            rw (busy, stages-q_to_pop v)
              (last_loop (push_to_pop (q_to_pop r)) (push_to_pop-IsValid v₁) refl
                (stages-push_to_pop v₁ (q_to_pop-ready v)))
      ]
