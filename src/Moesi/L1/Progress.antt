-- ===== src/Moesi/L1/Progress.antt =====
-- The assertions of handle_new_line_nolock (src/cache/moesi/l1cachev2.cpp).
use nullrvsim.Prelude.{
  ℕ, suc, ◌≡◌, ◌≢◌, ◌≤◌, ◌<◌, refl, sym, ◌∙◌, Bool, true, Option, none, some, List, arith,
  Bool-cases, inl, inr, ◌==◌, [], ◌∷◌, ◌++◌, ◌||◌, length, if◌then◌else◌, lt→ltb,
}
use native.Mathlib.Decide.{ℕ_discrete}
use nullrvsim.Prelude.Assoc.{
  find-erase, find-erase_self, find, erase, insert, find-assign_self, find-assign_ne,
  find-insert_ne,
}
use nullrvsim.Cache.Lru
use nullrvsim.Cache.Lru.{Block}
use nullrvsim.Cache.Mshr
use nullrvsim.Cache.Lookup.{lookup}
use nullrvsim.Cache.Misses.{length-erase}
use nullrvsim.Cache.Replace.{is_victim, lookup-insert_line, insert_line-replaced}
use nullrvsim.Moesi.Codes.LineState
use nullrvsim.Moesi.Codes.Pending
use nullrvsim.Moesi.Codes.MsgType
use nullrvsim.Moesi.Codes.Channel
use nullrvsim.Moesi.Message.{construct_msg_pack}
use nullrvsim.Moesi.L1.{Cache, Line, Entry, zeroed, push_send_buf, put_entry}
use nullrvsim.Moesi.L1.Forward.{remove_entry}
use nullrvsim.Moesi.L1.Install.{write_back, evict, handle_new_line}
use nullrvsim.Moesi.L1.Occupancy.{IsSeparate, IsSeparate-IsWhole}

-- The line is in one of the states in which it can be sent home.
abbrev pub proper : Option Line → Bool
proper none = true
proper (some p) =
    p.state == LineState.exclusive
    || p.state == LineState.modified
    || p.state == LineState.shared
    || p.state == LineState.owned

-- A line in one of those states, the state of the register that it goes to, the message that it goes
-- home with, and the bytes of that message.
pub data IsPut (p : Line) : ℕ → ℕ → List ℕ → Type 0 where
  put_exclusive : p.state ≡ LineState.exclusive → IsPut p Pending.etoi MsgType.pute []
  put_modified : p.state ≡ LineState.modified → IsPut p Pending.mtoi MsgType.putm p.bytes
  put_shared : p.state ≡ LineState.shared → IsPut p Pending.stoi MsgType.puts []
  put_owned : p.state ≡ LineState.owned → IsPut p Pending.otoi MsgType.puto p.bytes

length-erase_there :
    {A : Type 0} (k : ℕ) (m : List (ℕ × A)) {a : A}
    → find k m ≡ some a
    → suc (length (erase k m)) ≤ length m
unfolding find erase
length-erase_there k [] e = absurd (ground arith)
length-erase_there k ((j, b) ∷ m) {a} e = elim (Bool-cases (j == k)) [
  | inl q ↦ ground (arith, length-erase k m)
  | inr q ↦
      let step : suc (length (erase k m)) ≤ length m =
        length-erase_there k m {a = a} (ground arith) in
      ground arith
]

write_back-IsPut :
    (p : Line)
    → proper (some p) ≡ true
    → (pending : ℕ) × (type_ : ℕ) × (bytes : List ℕ) × (write_back p ≡ some (pending, type_, bytes))
      × IsPut p pending type_ bytes
unfolding write_back
write_back-IsPut p h = elim (ℕ_discrete p.state LineState.exclusive) [
  | yes a ↦ (_, _, _, ground (arith, a), put_exclusive a)
  | no a ↦ elim (ℕ_discrete p.state LineState.modified) [
    | yes b ↦ (_, _, _, ground (arith, b), put_modified b)
    | no b ↦ elim (ℕ_discrete p.state LineState.shared) [
      | yes c ↦ (_, _, _, ground (arith, c), put_shared c)
      | no c ↦ elim (ℕ_discrete p.state LineState.owned) [
        | yes d ↦ (_, _, _, ground (arith, a, b, c, d), put_owned d)
        | no d ↦ absurd (ground (arith, a, b, c, d))
      ]
    ]
  ]
]

-- What becomes of the replaced line: it has a register with its bytes, and one message more waits, which
-- brings it home; without one nothing more waits.
abbrev pub Departs : (ℕ → ℕ) → Cache → Cache → Option (ℕ × Line) → Type 0
Departs port r s none = s.send_buf ≡ r.send_buf
Departs port r s (some (v, p)) =
    (lookup r.block v ≡ some p)
    × ((pending : ℕ) × (type_ : ℕ) × (bytes : List ℕ) × IsPut p pending type_ bytes
        × (find v s.mshrs.hashmap ≡ some (record zeroed { line_buf = p.bytes; state = pending }))
        × (s.send_buf
            ≡ r.send_buf
              ++ record {
                msg = construct_msg_pack (record {
                  type_ = type_;
                  arg = r.my_port_id;
                  transid = 0;
                  line = v;
                  data_ = bytes;
                });
                dst = port v;
                cha = Channel.req;
              }
                ∷ []))

-- The line is in the block, and its register is free.
abbrev installed : ℕ → Entry → ℕ → Block Line → Cache → Cache
installed lindex e state block r = record r {
  block = block;
  mshrs = record r.mshrs { hashmap = erase lindex r.mshrs.hashmap };
  newlines =
      r.newlines
      ++ record { lindex = lindex; readonly = state == LineState.shared; bytes = e.line_buf } ∷ [];
}

-- The replaced line has its register, and waits to go home.
abbrev sent_home : ℕ → ℕ → Line → ℕ → ℕ → List ℕ → Cache → Cache
sent_home dst v p pending type_ bytes r = push_send_buf dst Channel.req type_ v r.my_port_id bytes (
    put_entry v (record zeroed { line_buf = p.bytes; state = pending })
      (record r { mshrs = record r.mshrs { hashmap = insert v zeroed r.mshrs.hashmap } }))

evict-sent_home :
    (port : ℕ → ℕ) (v : ℕ) (p : Line) (r : Cache) {pending type_ : ℕ} {bytes : List ℕ}
    → find v r.mshrs.hashmap ≡ none
    → length r.mshrs.hashmap < r.mshrs.max_sz
    → write_back p ≡ some (pending, type_, bytes)
    → evict (λ k. some (port k)) v p r ≡ some (sent_home (port v) v p pending type_ bytes r)
unfolding evict Mshr.alloc
evict-sent_home port v p r free room written =
    ground (arith, lt→ltb (length r.mshrs.hashmap) r.mshrs.max_sz room)

-- When every line has a home port, the lines of the block are in proper states and none is both in the
-- block and in a miss register, a line whose entry is among the miss registers, which are no more than
-- there may be, is installed without a failed assertion, if the block can insert it: the block then has
-- it with its state, and every other line as before but the replaced one; its register is free; and the
-- replaced line has a register and is sent home, with its bytes if it is modified or owned.
pub handle_new_line-succeeds :
    (port : ℕ → ℕ) (lindex : ℕ) (e e' : Entry) (state : ℕ) (r : Cache)
    {replaced : Option (ℕ × Line)} {block : Block Line}
    → IsSeparate r
    → ((k : ℕ) → proper (lookup r.block k) ≡ true)
    → find lindex r.mshrs.hashmap ≡ some e
    → length r.mshrs.hashmap ≤ r.mshrs.max_sz
    → Lru.insert_line lindex (record { bytes = e'.line_buf; state = state }) r.block
      ≡ some (replaced, block)
    → (s : Cache) × (handle_new_line (λ k. some (port k)) lindex e' state r ≡ some s)
      × ((k : ℕ)
          → lookup s.block k ≡ (
              if k == lindex
              then some (record { bytes = e'.line_buf; state = state })
              else if is_victim replaced k
              then none
              else lookup r.block k))
      × (find lindex s.mshrs.hashmap ≡ none)
      × Departs port r s replaced
unfolding handle_new_line remove_entry Mshr.remove
handle_new_line-succeeds port lindex e e' state r {replaced = none} {block} h states there room
      inserted =
    let p : Line = record { bytes = e'.line_buf; state = state } in
    (
      installed lindex e' state block r,
      ground arith,
      λ k. lookup-insert_line lindex k p r.block (IsSeparate-IsWhole r h) inserted,
      find-erase_self lindex r.mshrs.hashmap,
      refl,
    )
handle_new_line-succeeds port lindex e e' state r {replaced = some (v, o)} {block} h states there
      room inserted =
    let p : Line = record { bytes = e'.line_buf; state = state } in
    let (was, free, full, last) = insert_line-replaced lindex p r.block inserted in
    let apart_ : v ≢ lindex = λ same. ground arith in
    let (pending, type_, bytes, written, put) = write_back-IsPut o (ground (arith, states v)) in
    let left = installed lindex e' state block r in
    let gone : find v left.mshrs.hashmap ≡ none =
      ground (arith, h v, was, find-erase lindex v r.mshrs.hashmap) in
    let space = length-erase_there lindex r.mshrs.hashmap there in
    let reg : Entry = record zeroed { line_buf = o.bytes; state = pending } in
    (
      sent_home (port v) v o pending type_ bytes left,
      ground (
        arith,
        evict-sent_home port v o left {pending = pending} {type_ = type_} {bytes = bytes} gone
            (omega (arith, space, room)) written,
      ),
      λ k. lookup-insert_line lindex k p r.block (IsSeparate-IsWhole r h) inserted,
      find-assign_ne v lindex reg (insert v zeroed left.mshrs.hashmap) (λ same. apart_ (sym same))
          ∙ find-insert_ne v lindex zeroed left.mshrs.hashmap (λ same. apart_ (sym same))
          ∙ find-erase_self lindex r.mshrs.hashmap,
      (
        was,
        (
          pending,
          type_,
          bytes,
          put,
          find-assign_self v reg (insert v zeroed left.mshrs.hashmap),
          refl,
        ),
      ),
    )
