-- ===== src/Moesi/L1/Separate.antt =====
-- The answers to the cache's requests in handle_received_msg_nolock (src/cache/moesi/l1cachev2.cpp): in
-- which of the block and the miss registers they leave a line.
use nullrvsim.Prelude.{ℕ, ◌≡◌, true, Option, some, List, arith, Option-cases, inl, inr, take}
use nullrvsim.Prelude.Assoc.{find-assign, find}
use nullrvsim.Cache.Mshr
use nullrvsim.Moesi.Codes.LineState
use nullrvsim.Moesi.L1.{Cache, Entry, get_entry, put_entry, line_len}
use nullrvsim.Moesi.L1.Install.{acknowledge, finish_getm}
use nullrvsim.Moesi.L1.Handle.{
  handle_invalid_ack, handle_getm_ack, handle_gets_resp, handle_getm_resp, handle_get_resp_mem,
  dispatch, handle_received_msg, count_ack, await_acks,
}
use nullrvsim.Moesi.L1.Occupancy.{sound_after, IsSeparate}
use nullrvsim.Moesi.L1.Placing.{
  handle_invalid-Separate, handle_gets_forward-Separate, handle_getm_forward-Separate,
  handle_put_ack-Separate, install-Separate,
}

-- An entry that is there may change: its line is not in the block.
put_entry-Separate :
    (lindex : ℕ) {e : Entry} (e' : Entry) (r : Cache)
    → IsSeparate r
    → find lindex r.mshrs.hashmap ≡ some e
    → IsSeparate (put_entry lindex e' r)
put_entry-Separate lindex e' r h q k =
    ground (arith, h k, h lindex, find-assign lindex k e' r.mshrs.hashmap)

finish_getm-Separate :
    (home : ℕ → Option ℕ) (l2_port lindex : ℕ) (e : Entry) (r : Cache) (k : ℕ)
    → IsSeparate r
    → sound_after k r (finish_getm home l2_port lindex e r) ≡ true
unfolding finish_getm
finish_getm-Separate home l2_port lindex e r k h = ground (
  arith,
  h k,
  install-Separate home lindex e LineState.modified (acknowledge l2_port lindex r) k h,
)

handle_invalid_ack-Separate :
    (home : ℕ → Option ℕ) (l2_port lindex : ℕ) (r : Cache) (k : ℕ)
    → IsSeparate r
    → sound_after k r (handle_invalid_ack home l2_port lindex r) ≡ true
unfolding handle_invalid_ack get_entry Mshr.get
handle_invalid_ack-Separate home l2_port lindex r k h =
    elim (Option-cases (find lindex r.mshrs.hashmap)) [
      | inl n ↦ ground (arith, h k)
      | inr (e, q) ↦ ground (
        arith,
        h k,
        put_entry-Separate lindex (count_ack e) r h q k,
        finish_getm-Separate home l2_port lindex e r k h,
      )
    ]

handle_getm_ack-Separate :
    (home : ℕ → Option ℕ) (l2_port lindex arg : ℕ) (r : Cache) (k : ℕ)
    → IsSeparate r
    → sound_after k r (handle_getm_ack home l2_port lindex arg r) ≡ true
unfolding handle_getm_ack get_entry Mshr.get
handle_getm_ack-Separate home l2_port lindex arg r k h =
    elim (Option-cases (find lindex r.mshrs.hashmap)) [
      | inl n ↦ ground (arith, h k)
      | inr (e, q) ↦ ground (
        arith,
        h k,
        put_entry-Separate lindex (await_acks arg e) r h q k,
        finish_getm-Separate home l2_port lindex e r k h,
      )
    ]

handle_gets_resp-Separate :
    (home : ℕ → Option ℕ) (l2_port lindex arg : ℕ) (bytes : List ℕ) (r : Cache) (k : ℕ)
    → IsSeparate r
    → sound_after k r (handle_gets_resp home l2_port lindex arg bytes r) ≡ true
unfolding handle_gets_resp get_entry Mshr.get
handle_gets_resp-Separate home l2_port lindex arg bytes r k h =
    elim (Option-cases (find lindex r.mshrs.hashmap)) [
      | inl n ↦ ground (arith, h k)
      | inr (e, q) ↦
          let e' : Entry = record e { line_buf = take line_len bytes } in
          let held = put_entry-Separate lindex e' r h q in
          ground (
            arith,
            h k,
            install-Separate home lindex e' LineState.shared
                (acknowledge l2_port lindex (put_entry lindex e' r)) k held,
            install-Separate home lindex e' LineState.exclusive (put_entry lindex e' r) k held,
          )
    ]

handle_getm_resp-Separate :
    (home : ℕ → Option ℕ) (l2_port lindex arg : ℕ) (bytes : List ℕ) (r : Cache) (k : ℕ)
    → IsSeparate r
    → sound_after k r (handle_getm_resp home l2_port lindex arg bytes r) ≡ true
unfolding handle_getm_resp get_entry Mshr.get
handle_getm_resp-Separate home l2_port lindex arg bytes r k h =
    elim (Option-cases (find lindex r.mshrs.hashmap)) [
      | inl n ↦ ground (arith, h k)
      | inr (e, q) ↦
          let e' : Entry = record e { line_buf = take line_len bytes } in
          let held = put_entry-Separate lindex e' r h q in
          ground (
            arith,
            h k,
            put_entry-Separate lindex (record e' { get_data_ready = 1 }) r h q k,
            install-Separate home lindex e' LineState.modified
                (put_entry lindex e' (acknowledge l2_port lindex r)) k held,
            install-Separate home lindex e' LineState.modified (put_entry lindex e' r) k held,
          )
    ]

handle_get_resp_mem-Separate :
    (home : ℕ → Option ℕ) (l2_port lindex : ℕ) (bytes : List ℕ) (r : Cache) (k : ℕ)
    → IsSeparate r
    → sound_after k r (handle_get_resp_mem home l2_port lindex bytes r) ≡ true
unfolding handle_get_resp_mem get_entry Mshr.get
handle_get_resp_mem-Separate home l2_port lindex bytes r k h =
    elim (Option-cases (find lindex r.mshrs.hashmap)) [
      | inl n ↦ ground (arith, h k)
      | inr (e, q) ↦
          let e' : Entry = record e { line_buf = take line_len bytes } in
          let held = put_entry-Separate lindex e' r h q in
          ground (
            arith,
            h k,
            install-Separate home lindex e' LineState.modified
                (put_entry lindex e' (acknowledge l2_port lindex r)) k held,
            install-Separate home lindex e' LineState.exclusive
                (put_entry lindex e' (acknowledge l2_port lindex r)) k held,
          )
    ]

dispatch-Separate :
    (home : ℕ → Option ℕ) (l2_port : ℕ) (r : Cache) (k : ℕ)
    → IsSeparate r
    → sound_after k r (dispatch home l2_port r) ≡ true
unfolding dispatch
dispatch-Separate home l2_port r k h =
    let m = r.msgbuf in
    ground (
      arith,
      h k,
      handle_invalid-Separate m.line m.arg r k h,
      handle_invalid_ack-Separate home l2_port m.line r k h,
      handle_gets_forward-Separate m.line m.arg r k h,
      handle_getm_forward-Separate m.line m.arg r k h,
      handle_getm_ack-Separate home l2_port m.line m.arg r k h,
      handle_gets_resp-Separate home l2_port m.line m.arg m.data_ r k h,
      handle_getm_resp-Separate home l2_port m.line m.arg m.data_ r k h,
      handle_get_resp_mem-Separate home l2_port m.line m.data_ r k h,
      handle_put_ack-Separate m.line r k h,
    )

-- Handling a received message, of whatever type, keeps every line from being both in the block and
-- in a miss register.
pub handle_received_msg-IsSeparate :
    (home : ℕ → Option ℕ) (r : Cache) {s : Cache}
    → IsSeparate r
    → handle_received_msg home r ≡ some s
    → IsSeparate s
unfolding handle_received_msg
handle_received_msg-IsSeparate home r h q k = elim (Option-cases (home r.msgbuf.line)) [
  | inl n ↦ ground (arith, h k)
  | inr (l2_port, e) ↦ ground (arith, h k, dispatch-Separate home l2_port r k h)
]
