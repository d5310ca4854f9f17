-- ===== src/TickQueue.antt =====
-- src/tickqueue.h: SimpleTickQueue, the queue between pipeline stages, over one circular buffer.
-- An entry is pushed in one cycle and can be popped in a later one: apply_next_tick moves entries
-- from the input stage through the main queue to the output stage.
pub mod Model
pub mod Window
pub mod Inv
pub mod Refine
pub mod Ends
mod Tests
use nullrvsim.Prelude.{
  ℕ, zero, suc, ◌+◌, ◌-◌, ◌*◌, ◌/◌, ◌%◌, ◌^◌, min, Bool, true, false, ltb, ◌==◌, ◌&&◌, ◌||◌,
  if◌then◌else◌, Option, none, some, List, [], ◌∷◌, get_or, set,
}
use nullrvsim.Prelude.Words.{add32, sub32, mul32}

-- The fields of SimpleTickQueue<T>. The output stage starts at `bottom`, the main queue at
-- `q_bottom`, the input stage at `push_bottom`, and `ptr` is the next free slot.
pub record Queue {ℓ} (A : Type ℓ) : Type ℓ where
  pub iwid : ℕ
  pub owid : ℕ
  pub qsize : ℕ
  pub len : ℕ
  pub bottom : ℕ
  pub q_bottom : ℕ
  pub push_bottom : ℕ
  pub ptr : ℕ
  pub pop_sz : ℕ
  pub q_sz : ℕ
  pub push_sz : ℕ
  pub buf : List A

-- ALIGN((iwid + owid + qsize) * 2, 16), in uint32_t
unfoldable pub buffer_len : ℕ → ℕ → ℕ → ℕ
buffer_len iwid owid qsize =
    let wanted = mul32 (add32 (add32 iwid owid) qsize) 2 in
    mul32 16 (sub32 (add32 wanted 16) 1 / 16)

module _ {ℓ} {A : Type ℓ} where
  abbrev pub replicate : ℕ → A → List A
  replicate zero a = []
  replicate (suc n) a = a ∷ replicate n a

  -- The constructor; `none` where an assertion fails. `d` is the default T() of `buf.resize(len)`.
  unfoldable pub init : A → ℕ → ℕ → ℕ → Option (Queue A)
  init d iwid owid qsize =
      if ltb 0 iwid && ltb 0 owid && ltb iwid (2 ^ 30) && ltb owid (2 ^ 30)
      then some (record {
        iwid = iwid;
        owid = owid;
        qsize = qsize;
        len = buffer_len iwid owid qsize;
        bottom = 0;
        q_bottom = 0;
        push_bottom = 0;
        ptr = 0;
        pop_sz = 0;
        q_sz = 0;
        push_sz = 0;
        buf = replicate (buffer_len iwid owid qsize) d;
      })
      else none

  -- The main queue hands `q2pop` entries to the output stage.
  unfoldable pub q_to_pop : Queue A → Queue A
  q_to_pop r =
      let q2pop = min (sub32 r.owid r.pop_sz) r.q_sz in
      record r {
        q_bottom = add32 r.q_bottom q2pop % r.len;
        pop_sz = add32 r.pop_sz q2pop;
        q_sz = sub32 r.q_sz q2pop;
      }

  -- The input stage hands `push2pop` entries straight to the output stage.
  unfoldable pub push_to_pop : Queue A → Queue A
  push_to_pop r =
      let push2pop = min (sub32 r.owid r.pop_sz) r.push_sz in
      record r {
        q_bottom = add32 r.q_bottom push2pop % r.len;
        push_bottom = add32 r.push_bottom push2pop % r.len;
        pop_sz = add32 r.pop_sz push2pop;
        push_sz = sub32 r.push_sz push2pop;
      }

  -- The input stage hands `push2q` entries to the main queue.
  unfoldable pub push_to_q : Queue A → Queue A
  push_to_q r =
      let push2q = min (sub32 r.qsize r.q_sz) r.push_sz in
      record r {
        push_bottom = add32 r.push_bottom push2q % r.len;
        q_sz = add32 r.q_sz push2q;
        push_sz = sub32 r.push_sz push2q;
      }

  unfoldable pub apply_next_tick : Queue A → Queue A
  apply_next_tick r =
      if r.qsize == 0
      then (if r.push_sz == 0 then r else if ltb r.pop_sz r.owid then push_to_pop r else r)
      else (let r₁ = q_to_pop r in push_to_q (if r₁.push_sz == 0 then r₁ else push_to_pop r₁))

  unfoldable pub can_push : Queue A → ℕ
  can_push r = sub32 r.iwid r.push_sz

  unfoldable pub can_pop : Queue A → ℕ
  can_pop r = r.pop_sz

  -- `none` is the failed assertion of an empty output stage.
  unfoldable pub top : A → Queue A → Option A
  top d r = if r.pop_sz == 0 then none else some (get_or r.buf r.bottom d)

  unfoldable pub pop : Queue A → Option (Queue A)
  pop r =
      if r.pop_sz == 0
      then none
      else some (record r { bottom = add32 r.bottom 1 % r.len; pop_sz = sub32 r.pop_sz 1 })

  unfoldable pub push : A → Queue A → Bool × Queue A
  push v r =
      if ltb r.push_sz r.iwid
      then (
        true,
        record r {
          buf = set r.buf r.ptr v;
          ptr = add32 r.ptr 1 % r.len;
          push_sz = add32 r.push_sz 1;
        },
      )
      else (false, r)

  -- `for(i = bottom ; i != ptr ; i = (i+1)%len) out->push_back(buf[i]);`, on fuel
  unfoldable pub drain : A → ℕ → Queue A → ℕ → Option (List A)
  drain d zero r i = none
  drain d (suc fuel) r i =
      let rest = drain d fuel r (add32 i 1 % r.len) in
      if i == r.ptr
      then some []
      else elim rest [ none ↦ none | some l ↦ some (get_or r.buf i d ∷ l) ]

  -- clear() without its output list; with one, the list first receives what `drain` collects.
  unfoldable pub clear : Queue A → Queue A
  clear r = record r {
    bottom = 0;
    q_bottom = 0;
    push_bottom = 0;
    ptr = 0;
    pop_sz = 0;
    q_sz = 0;
    push_sz = 0;
  }

  unfoldable pub empty : Queue A → Bool
  empty r = r.bottom == r.ptr

  -- The loop of pass_to: what `push` returns is ignored.
  unfoldable pub pass : A → ℕ → Queue A → Queue A → Option (Queue A × Queue A)
  pass d zero q1 q2 = some (q1, q2)
  pass d (suc cnt) q1 q2 = elim (top d q1) [
    | none ↦ none
    | some v ↦ elim (pop q1) [ none ↦ none | some q1' ↦ pass d cnt q1' (push v q2).1 ]
  ]

  -- pass_to between two distinct queues: `cnt` entries, or none at all.
  unfoldable pub pass_to : A → Queue A → Queue A → ℕ → Option (Bool × Queue A × Queue A)
  pass_to d q1 q2 cnt =
      if cnt == 0
      then some (true, q1, q2)
      else if ltb (can_pop q1) cnt || ltb (can_push q2) cnt
      then some (false, q1, q2)
      else elim (pass d cnt q1 q2) [ none ↦ none | some (q1', q2') ↦ some (true, q1', q2') ]

  -- size() adds in uint32_t before it widens.
  unfoldable pub size : Queue A → ℕ
  size r = add32 (add32 r.push_sz r.pop_sz) r.q_sz

  unfoldable pub cur_size : Queue A → ℕ
  cur_size r = add32 r.pop_sz r.q_sz
