-- ===== src/TickQueue/Inv.antt =====
-- The representation invariant of SimpleTickQueue: where the three stages lie in the buffer.
use nullrvsim.Prelude.{
  ℕ, ◌+◌, ◌-◌, ◌%◌, ◌^◌, ◌<◌, ◌≤◌, ◌≡◌, refl, zero, suc, min, ap, length, length-set, some, arith,
  Bool-cases, inl, inr, ◌==◌, ◌∙◌, sym,
}
use nullrvsim.Prelude.Words.{add32, sub32}
use native.Mathlib.Nat.{mod-add-mod, mod-lt, mod-eq_of_lt}
use nullrvsim.TickQueue.{
  Queue, replicate, buffer_len, init, q_to_pop, push_to_pop, push_to_q, apply_next_tick, push, pop,
  clear,
}

pub record IsValid {ℓ} {A : Type ℓ} (r : Queue A) : Type ℓ where
  pub small : r.iwid + r.owid + r.qsize < 2 ^ 30
  pub room : r.iwid + r.owid + r.qsize < r.len
  pub len_small : r.len ≤ 2 ^ 31
  pub storage : length r.buf ≡ r.len
  pub bottom_in : r.bottom < r.len
  pub q_at : r.q_bottom ≡ (r.bottom + r.pop_sz) % r.len
  pub push_at : r.push_bottom ≡ (r.bottom + (r.pop_sz + r.q_sz)) % r.len
  pub ptr_at : r.ptr ≡ (r.bottom + (r.pop_sz + r.q_sz + r.push_sz)) % r.len
  pub pop_le : r.pop_sz ≤ r.owid
  pub q_le : r.q_sz ≤ r.qsize
  pub push_le : r.push_sz ≤ r.iwid

-- An index moved on by `n` and reduced twice is reduced once.
pub advance :
    (len b k n : ℕ)
    → (b + k) % len < 2 ^ 31
    → n < 2 ^ 31
    → add32 ((b + k) % len) n % len ≡ (b + (k + n)) % len
advance len b k n h hn =
    let wide : add32 ((b + k) % len) n ≡ (b + k) % len + n = omega arith in
    rw (wide, mod-add-mod (b + k) len n) (ap (λ (t : ℕ). t % len) (omega arith))

-- Every index moves with `bottom`.
pub step-past :
    (len b k : ℕ) → b < len → len ≤ 2 ^ 31 → (add32 b 1 % len + k) % len ≡ (b + (k + 1)) % len
step-past len b k h small =
    let wide : add32 b 1 ≡ b + 1 = omega arith in
    rw (wide, mod-add-mod (b + 1) len k) (ap (λ (t : ℕ). t % len) (omega arith))

module _ {ℓ} {A : Type ℓ} where
  length-replicate : (n : ℕ) (a : A) → length (replicate n a) ≡ n
  length-replicate zero a = refl
  length-replicate (suc n) a = ap suc (length-replicate n a)

  pub q_to_pop-IsValid : {r : Queue A} → IsValid r → IsValid (q_to_pop r)
  unfolding q_to_pop
  q_to_pop-IsValid {r} v = ground (
    arith,
    mod-lt (r.bottom + r.pop_sz) {m = r.len} (omega arith),
    advance r.len r.bottom r.pop_sz (min (sub32 r.owid r.pop_sz) r.q_sz),
  )

  pub push_to_pop-IsValid : {r : Queue A} → IsValid r → IsValid (push_to_pop r)
  unfolding push_to_pop
  push_to_pop-IsValid {r} v = ground (
    arith,
    mod-lt (r.bottom + r.pop_sz) {m = r.len} (omega arith),
    mod-lt (r.bottom + (r.pop_sz + r.q_sz)) {m = r.len} (omega arith),
    advance r.len r.bottom r.pop_sz (min (sub32 r.owid r.pop_sz) r.push_sz),
    advance r.len r.bottom (r.pop_sz + r.q_sz) (min (sub32 r.owid r.pop_sz) r.push_sz),
  )

  pub push_to_q-IsValid : {r : Queue A} → IsValid r → IsValid (push_to_q r)
  unfolding push_to_q
  push_to_q-IsValid {r} v = ground (
    arith,
    mod-lt (r.bottom + (r.pop_sz + r.q_sz)) {m = r.len} (omega arith),
    advance r.len r.bottom (r.pop_sz + r.q_sz) (min (sub32 r.qsize r.q_sz) r.push_sz),
  )

  -- The cycle's step keeps the invariant.
  pub apply_next_tick-IsValid : {r : Queue A} → IsValid r → IsValid (apply_next_tick r)
  unfolding apply_next_tick
  apply_next_tick-IsValid {r} v = ground (
    arith,
    push_to_pop-IsValid v,
    push_to_q-IsValid (q_to_pop-IsValid v),
    push_to_q-IsValid (push_to_pop-IsValid (q_to_pop-IsValid v)),
  )

  -- A push, accepted or refused, keeps the invariant.
  pub push-IsValid : {r : Queue A} (x : A) → IsValid r → IsValid (push x r).1
  unfolding push
  push-IsValid {r} x v = ground (
    arith,
    length-set r.buf r.ptr x,
    mod-lt (r.bottom + (r.pop_sz + r.q_sz + r.push_sz)) {m = r.len} (omega arith),
    advance r.len r.bottom (r.pop_sz + r.q_sz + r.push_sz) 1,
  )

  -- What `pop` leaves of a queue whose output stage is not empty.
  abbrev pub after_pop : Queue A → Queue A
  after_pop r = record r { bottom = add32 r.bottom 1 % r.len; pop_sz = sub32 r.pop_sz 1 }

  after_pop-IsValid : {r : Queue A} → IsValid r → 0 < r.pop_sz → IsValid (after_pop r)
  after_pop-IsValid {r} v h =
      let one_less : sub32 r.pop_sz 1 ≡ r.pop_sz - 1 = omega arith in
      record {
        small = v.small;
        room = v.room;
        len_small = v.len_small;
        storage = v.storage;
        bottom_in = mod-lt (add32 r.bottom 1) (omega arith);
        q_at = v.q_at ∙ later (r.pop_sz) (sub32 r.pop_sz 1) (omega arith);
        push_at = v.push_at ∙ later (r.pop_sz + r.q_sz) (sub32 r.pop_sz 1 + r.q_sz) (omega arith);
        ptr_at =
            v.ptr_at
            ∙ later (r.pop_sz + r.q_sz + r.push_sz) (sub32 r.pop_sz 1 + r.q_sz + r.push_sz)
                (omega arith);
        pop_le = omega arith;
        q_le = v.q_le;
        push_le = v.push_le;
      }
    where
      later :
          (k j : ℕ) → k ≡ j + 1 → (r.bottom + k) % r.len ≡ (add32 r.bottom 1 % r.len + j) % r.len
      later k j e =
          ap (λ t. (r.bottom + t) % r.len) e
          ∙ sym (step-past r.len r.bottom j v.bottom_in v.len_small)

  -- A pop that succeeds keeps the invariant.
  pub pop-IsValid : {r s : Queue A} → IsValid r → pop r ≡ some s → IsValid s
  unfolding pop
  pop-IsValid {r} v e = elim (Bool-cases (r.pop_sz == 0)) [
    | inl none_left ↦ absurd (cc (rw none_left at e))
    | inr some_left ↦ ground (arith, after_pop-IsValid v)
  ]

  -- What the constructor builds is valid, as long as the three sizes stay below 2^30 together.
  pub init-IsValid :
      (d : A) (iwid owid qsize : ℕ) {r : Queue A}
      → iwid + owid + qsize < 2 ^ 30
      → init d iwid owid qsize ≡ some r
      → IsValid r
  unfolding init buffer_len
  init-IsValid d iwid owid qsize small e = ground (
    arith,
    length-replicate (buffer_len iwid owid qsize) d,
    mod-eq_of_lt {n = 0} {m = buffer_len iwid owid qsize},
  )

  pub clear-IsValid : {r : Queue A} → IsValid r → IsValid (clear r)
  unfolding clear
  clear-IsValid {r} v = ground (arith, mod-eq_of_lt {n = 0} {m = r.len})
