-- ===== src/Moesi/L1/Pushing.antt =====
-- How many messages the accesses and the branches of handle_received_msg_nolock
-- (src/cache/moesi/l1cachev2.cpp) put into the send buffer.
use nullrvsim.Prelude.{
  ℕ, ◌+◌, ◌≤◌, ◌≡◌, Bool, Option, some, List, [], ◌∷◌, ◌++◌, length, length-append, arith,
  Option-cases, inl, inr, take,
}
use nullrvsim.SimError.{SimError}
use nullrvsim.Moesi.Codes.LineState
use nullrvsim.Moesi.L1.{Cache, Entry, Ready, put_entry, put_line, remove_line, get_entry, line_len}
use nullrvsim.Moesi.L1.Port.{recieve_msg}
use nullrvsim.Moesi.L1.Access.{
  load_line, load_miss, store_line, store_wait, store_miss, alloc_entry,
}
use nullrvsim.Moesi.L1.Forward.{
  Handled, failed, later, done, remove_entry, handle_invalid, handle_gets_forward,
  handle_getm_forward, handle_put_ack,
}
use nullrvsim.Moesi.L1.Install.{acknowledge, evict, handle_new_line, install, finish_getm}
use nullrvsim.Moesi.L1.Handle.{
  handle_invalid_ack, handle_getm_ack, handle_gets_resp, handle_getm_resp, handle_get_resp_mem,
}

-- The messages that wait to be sent fit in the buffer.
abbrev pub Fits : Cache → Type 0
Fits r = length r.send_buf ≤ r.send_buf_size

-- How many messages wait after a handler, and how many may.
abbrev pub waiting_after : Handled → ℕ
waiting_after failed = 0
waiting_after later = 0
waiting_after (done s) = length s.send_buf

abbrev pub size_after : Cache → Handled → ℕ
size_after r failed = r.send_buf_size
size_after r later = r.send_buf_size
size_after r (done s) = s.send_buf_size

-- A handler pushes at most `n` messages.
abbrev pub Pushes : ℕ → Cache → Handled → Type 0
Pushes n r h = (waiting_after h ≤ length r.send_buf + n) × (size_after r h ≡ r.send_buf_size)

pub length-snoc : (b : List Ready) (m : Ready) → length (b ++ m ∷ []) ≡ length b + 1
length-snoc b m = length-append b (m ∷ [])

pub recieve_msg-Fits :
    (ports : List (Option (List ℕ))) (r : Cache) → Fits r → Fits (recieve_msg ports r)
unfolding recieve_msg
recieve_msg-Fits ports r h = ground arith

pub load_line-Fits :
    (lindex offset l2_port len : ℕ) (buf : List ℕ) (valid : List Bool) (r : Cache) {res : SimError}
    {out : List ℕ} {s : Cache}
    → Fits r
    → load_line lindex offset l2_port len buf valid r ≡ (res, out, s)
    → Fits s
unfolding load_line load_miss alloc_entry
load_line-Fits lindex offset l2_port len buf valid r h q = grind (arith, length-snoc)

pub store_line-Fits :
    (lindex offset l2_port len : ℕ) (buf : List ℕ) (valid : List Bool) (r : Cache) {res : SimError}
    {s : Cache}
    → Fits r
    → store_line lindex offset l2_port len buf valid r ≡ some (res, s)
    → Fits s
unfolding store_line store_wait store_miss put_line remove_line alloc_entry
store_line-Fits lindex offset l2_port len buf valid r h q = grind (arith, length-snoc)

pub install-Pushes :
    (home : ℕ → Option ℕ) (lindex : ℕ) (e : Entry) (state : ℕ) (r : Cache)
    → Pushes 1 r (install home lindex e state r)
unfolding install handle_new_line remove_entry evict
install-Pushes home lindex e state r = grind (arith, length-snoc)

pub finish_getm-Fits :
    (home : ℕ → Option ℕ) (l2_port lindex : ℕ) (e : Entry) (r : Cache)
    → Fits r
    → waiting_after (finish_getm home l2_port lindex e r)
      ≤ size_after r (finish_getm home l2_port lindex e r)
unfolding finish_getm
finish_getm-Fits home l2_port lindex e r h = grind (
  arith,
  length-snoc,
  install-Pushes home lindex e LineState.modified (acknowledge l2_port lindex r),
)

pub handle_invalid-Fits :
    (lindex arg : ℕ) (r : Cache)
    → Fits r
    → waiting_after (handle_invalid lindex arg r) ≤ size_after r (handle_invalid lindex arg r)
unfolding handle_invalid remove_line put_line remove_entry
handle_invalid-Fits lindex arg r h = grind (arith, length-snoc)

pub handle_gets_forward-Fits :
    (lindex arg : ℕ) (r : Cache)
    → Fits r
    → waiting_after (handle_gets_forward lindex arg r)
      ≤ size_after r (handle_gets_forward lindex arg r)
unfolding handle_gets_forward remove_line put_line remove_entry
handle_gets_forward-Fits lindex arg r h = grind (arith, length-snoc)

pub handle_getm_forward-Fits :
    (lindex arg : ℕ) (r : Cache)
    → Fits r
    → waiting_after (handle_getm_forward lindex arg r)
      ≤ size_after r (handle_getm_forward lindex arg r)
unfolding handle_getm_forward remove_line put_line remove_entry
handle_getm_forward-Fits lindex arg r h = grind (arith, length-snoc)

pub handle_put_ack-Fits :
    (lindex : ℕ) (r : Cache)
    → Fits r
    → waiting_after (handle_put_ack lindex r) ≤ size_after r (handle_put_ack lindex r)
unfolding handle_put_ack remove_line put_line remove_entry
handle_put_ack-Fits lindex r h = grind (arith, length-snoc)

pub handle_invalid_ack-Fits :
    (home : ℕ → Option ℕ) (l2_port lindex : ℕ) (r : Cache)
    → Fits r
    → waiting_after (handle_invalid_ack home l2_port lindex r)
      ≤ size_after r (handle_invalid_ack home l2_port lindex r)
unfolding handle_invalid_ack
handle_invalid_ack-Fits home l2_port lindex r h = elim (Option-cases (get_entry lindex r)) [
  | inl n ↦ ground arith
  | inr (e, q) ↦ grind (arith, finish_getm-Fits home l2_port lindex e r h)
]

pub handle_getm_ack-Fits :
    (home : ℕ → Option ℕ) (l2_port lindex arg : ℕ) (r : Cache)
    → Fits r
    → waiting_after (handle_getm_ack home l2_port lindex arg r)
      ≤ size_after r (handle_getm_ack home l2_port lindex arg r)
unfolding handle_getm_ack
handle_getm_ack-Fits home l2_port lindex arg r h = elim (Option-cases (get_entry lindex r)) [
  | inl n ↦ ground arith
  | inr (e, q) ↦ grind (arith, finish_getm-Fits home l2_port lindex e r h)
]

-- The entry that a message with data leaves.
abbrev pub filled : Entry → List ℕ → Entry
filled e bytes = record e { line_buf = take line_len bytes }

pub handle_gets_resp-Fits :
    (home : ℕ → Option ℕ) (l2_port lindex arg : ℕ) (bytes : List ℕ) (r : Cache)
    → Fits r
    → waiting_after (handle_gets_resp home l2_port lindex arg bytes r)
      ≤ size_after r (handle_gets_resp home l2_port lindex arg bytes r)
unfolding handle_gets_resp
handle_gets_resp-Fits home l2_port lindex arg bytes r h = elim (Option-cases (get_entry lindex r)) [
  | inl n ↦ ground arith
  | inr (e, q) ↦ grind (
    arith,
    length-snoc,
    install-Pushes home lindex (filled e bytes) LineState.shared
        (acknowledge l2_port lindex (put_entry lindex (filled e bytes) r)),
    install-Pushes home lindex (filled e bytes) LineState.exclusive
        (put_entry lindex (filled e bytes) r),
  )
]

pub handle_getm_resp-Fits :
    (home : ℕ → Option ℕ) (l2_port lindex arg : ℕ) (bytes : List ℕ) (r : Cache)
    → Fits r
    → waiting_after (handle_getm_resp home l2_port lindex arg bytes r)
      ≤ size_after r (handle_getm_resp home l2_port lindex arg bytes r)
unfolding handle_getm_resp
handle_getm_resp-Fits home l2_port lindex arg bytes r h = elim (Option-cases (get_entry lindex r)) [
  | inl n ↦ ground arith
  | inr (e, q) ↦ grind (
    arith,
    length-snoc,
    install-Pushes home lindex (filled e bytes) LineState.modified
        (put_entry lindex (filled e bytes) (acknowledge l2_port lindex r)),
    install-Pushes home lindex (filled e bytes) LineState.modified
        (put_entry lindex (filled e bytes) r),
  )
]

pub handle_get_resp_mem-Fits :
    (home : ℕ → Option ℕ) (l2_port lindex : ℕ) (bytes : List ℕ) (r : Cache)
    → Fits r
    → waiting_after (handle_get_resp_mem home l2_port lindex bytes r)
      ≤ size_after r (handle_get_resp_mem home l2_port lindex bytes r)
unfolding handle_get_resp_mem
handle_get_resp_mem-Fits home l2_port lindex bytes r h = elim (Option-cases (get_entry lindex r)) [
  | inl n ↦ ground arith
  | inr (e, q) ↦ grind (
    arith,
    length-snoc,
    install-Pushes home lindex (filled e bytes) LineState.modified
        (put_entry lindex (filled e bytes) (acknowledge l2_port lindex r)),
    install-Pushes home lindex (filled e bytes) LineState.exclusive
        (put_entry lindex (filled e bytes) (acknowledge l2_port lindex r)),
  )
]
