-- ===== src/Moesi/Llc/Room.antt =====
-- The buffers of a node stay within their sizes.
use nullrvsim.Prelude.{
  ℕ, ◌≤◌, ◌≡◌, refl, Bool, Option, none, some, Option-cases, inl, inr, List, [], ◌∷◌, length,
  length-append, arith,
}
use nullrvsim.Bus.Mapping.{BusPortMapping}
use nullrvsim.Moesi.Message.{Msg}
use nullrvsim.Moesi.L1.{Ready}
use nullrvsim.Moesi.Llc.{Llc, Package}
use nullrvsim.Moesi.Llc.Fetch.{accept, receive, next_request, start, p1_fetch}
use nullrvsim.Moesi.Llc.Index.{index_gets, index_getm}
use nullrvsim.Moesi.Llc.Puts.{index_put_clean, index_put_dirty, take_line, replace}
use nullrvsim.Moesi.Llc.Stage.{index, commit, index_next, p2_index}
use nullrvsim.Moesi.Llc.Process.{
  send_each, send_all, finished, take_result, retire, p3_process, on_current_tick,
}

-- Received requests, and packages that wait to send.
abbrev pub Fits : Llc → Type 0
Fits r = (length r.recv_buf ≤ r.recv_buf_size) × (length r.process_buf ≤ r.process_buf_size)

-- How many are left when one is taken out.
abbrev remaining {ℓ} : {A : Type ℓ} → Option (A × List A) → ℕ
remaining none = 0
remaining (some (x, left)) = length left

next_request-length : (busy : List ℕ) (l : List Msg) → remaining (next_request busy l) ≤ length l
unfolding next_request
next_request-length busy [] = omega arith
next_request-length busy (m ∷ rest) = ground (arith, next_request-length busy rest)

finished-length : (l : List Package) → remaining (finished l) ≤ length l
unfolding finished
finished-length [] = omega arith
finished-length (p ∷ rest) = ground (arith, finished-length rest)

send_all-length : (room : List Bool) (l : List Package) → length (send_all room l).1 ≡ length l
unfolding send_all
send_all-length room [] = refl
send_all-length room (pak ∷ rest) =
    omega (arith, send_all-length (send_each room pak.need_send).2 rest)

receive-Fits :
    (ports : List (Option (List ℕ))) (r : Llc) {s : Llc}
    → Fits r
    → receive ports r ≡ some s
    → Fits s
unfolding receive accept
receive-Fits ports r h e = grind (arith, length-append)

start-Fits : (r : Llc) {s : Llc} → Fits r → start r ≡ some s → Fits s
unfolding start
start-Fits r h e = ground (arith, next_request-length r.processing_lindex r.recv_buf)

p1_fetch-Fits :
    (ports : List (Option (List ℕ))) (r : Llc) {s : Llc}
    → Fits r
    → p1_fetch ports r ≡ some s
    → Fits s
unfolding p1_fetch
p1_fetch-Fits ports r {s} h e = elim (Option-cases (receive ports r)) [
  | inl n ↦ absurd (ground arith)
  | inr (t, g) ↦
      ground (arith, receive-Fits ports r h g, start-Fits t {s = s} (receive-Fits ports r h g))
]

take_result-Fits : (r : Llc) {s : Llc} → Fits r → take_result r ≡ some s → Fits s
unfolding take_result
take_result-Fits r h e = grind (arith, length-append)

retire-Fits : (r : Llc) → Fits r → Fits (retire r)
unfolding retire
retire-Fits r h = ground (arith, finished-length r.process_buf)

p3_process-Fits :
    (room : List Bool) (r : Llc) {sent : List Ready} {s : Llc}
    → Fits r
    → p3_process room r ≡ some (sent, s)
    → Fits s
unfolding p3_process
p3_process-Fits room r {sent} {s} h e = elim (Option-cases (take_result r)) [
  | inl n ↦ absurd (ground arith)
  | inr (t, g) ↦
      let u = record t { process_buf = (send_all room t.process_buf).1 } in
      let (few, small) = take_result-Fits r h g in
      let kept : Fits u = (few, omega (arith, send_all-length room t.process_buf)) in
      ground (arith, retire-Fits u kept)
]

module _ (busmap : BusPortMapping) where
  -- The buffers, which the index stage leaves alone.
  abbrev Same : Llc → Llc → Type 0
  Same r s =
      (s.recv_buf ≡ r.recv_buf)
      × (s.recv_buf_size ≡ r.recv_buf_size)
      × (s.process_buf ≡ r.process_buf)
      × (s.process_buf_size ≡ r.process_buf_size)

  take_line-Same :
      (pak : Package) (r : Llc) {q : Package} {s : Llc}
      → take_line busmap pak r ≡ some (q, s)
      → Same r s
  unfolding take_line replace
  take_line-Same pak r e = ground arith

  put_dirty-Same :
      (pak : Package) (r : Llc) {q : Package} {s : Llc}
      → index_put_dirty busmap pak r ≡ some (q, s)
      → Same r s
  unfolding index_put_dirty
  put_dirty-Same pak r e = grind (arith, take_line-Same)

  index-Same :
      (pak : Package) (r : Llc) {q : Package} {s : Llc}
      → index busmap pak r ≡ some (q, s)
      → Same r s
  unfolding index index_gets index_getm index_put_clean
  index-Same pak r {q} {s} e = ground (arith, put_dirty-Same pak r {q = q} {s = s})

  commit-Same : (wb : Package) (r : Llc) {s : Llc} → commit wb r ≡ some s → Same r s
  unfolding commit
  commit-Same wb r e = ground arith

  p2_index-Fits : (r : Llc) {s : Llc} → Fits r → p2_index busmap r ≡ some s → Fits s
  unfolding p2_index index_next
  p2_index-Fits r h e = grind (arith, index-Same, commit-Same)

  -- A cycle of a node keeps the received requests and the packages that wait to send within the sizes of
  -- their buffers.
  pub on_current_tick-Fits :
      (ports : List (Option (List ℕ))) (room : List Bool) (r : Llc) {sent : List Ready} {s : Llc}
      → Fits r
      → on_current_tick busmap ports room r ≡ some (sent, s)
      → Fits s
  unfolding on_current_tick
  on_current_tick-Fits ports room r {sent} {s} h e = elim (Option-cases (p1_fetch ports r)) [
    | inl n ↦ absurd (ground arith)
    | inr (t, f) ↦ elim (Option-cases (p2_index busmap t)) [
      | inl n ↦ absurd (ground arith)
      | inr (u, g) ↦
          p3_process-Fits room u {sent = sent} {s = s}
            (p2_index-Fits t (p1_fetch-Fits ports r h f) g) (ground arith)
    ]
  ]
