-- ===== src/Moesi/L1/Capacity.antt =====
-- How full load, store and handle_received_msg_nolock (src/cache/moesi/l1cachev2.cpp) leave the send
-- buffer.
use nullrvsim.Prelude.{
  ℕ, ◌≤◌, ◌≡◌, Bool, Option, some, List, arith, Option-cases, Bool-cases, inl, inr, ◌%◌,
}
use nullrvsim.SimError.{SimError}
use nullrvsim.Moesi.L1.{Cache, addr_to_line_index}
use nullrvsim.Moesi.L1.Port.{recieve_msg}
use nullrvsim.Moesi.L1.Access.{load, store, crosses_line}
use nullrvsim.Moesi.L1.Handle.{dispatch, handle_received_msg}
use nullrvsim.Moesi.L1.Pushing.{
  Fits, waiting_after, size_after, recieve_msg-Fits, load_line-Fits, store_line-Fits,
  handle_invalid-Fits, handle_gets_forward-Fits, handle_getm_forward-Fits, handle_put_ack-Fits,
  handle_invalid_ack-Fits, handle_getm_ack-Fits, handle_gets_resp-Fits, handle_getm_resp-Fits,
  handle_get_resp_mem-Fits,
}

dispatch-Fits :
    (home : ℕ → Option ℕ) (l2_port : ℕ) (r : Cache)
    → Fits r
    → waiting_after (dispatch home l2_port r) ≤ size_after r (dispatch home l2_port r)
unfolding dispatch
dispatch-Fits home l2_port r h =
    let m = r.msgbuf in
    ground (
      arith,
      handle_invalid-Fits m.line m.arg r h,
      handle_invalid_ack-Fits home l2_port m.line r h,
      handle_gets_forward-Fits m.line m.arg r h,
      handle_getm_forward-Fits m.line m.arg r h,
      handle_getm_ack-Fits home l2_port m.line m.arg r h,
      handle_gets_resp-Fits home l2_port m.line m.arg m.data_ r h,
      handle_getm_resp-Fits home l2_port m.line m.arg m.data_ r h,
      handle_get_resp_mem-Fits home l2_port m.line m.data_ r h,
      handle_put_ack-Fits m.line r h,
    )

-- Handling a received message leaves a send buffer within its size when it was: no branch sends more
-- than the room that it checked for.
pub handle_received_msg-Fits :
    (home : ℕ → Option ℕ) (r : Cache) {s : Cache}
    → Fits r
    → handle_received_msg home r ≡ some s
    → Fits s
unfolding handle_received_msg
handle_received_msg-Fits home r h q = elim (Option-cases (home r.msgbuf.line)) [
  | inl n ↦ ground arith
  | inr (l2_port, e) ↦ ground (arith, dispatch-Fits home l2_port r h)
]

module _ (home : ℕ → Option ℕ) (ports : List (Option (List ℕ))) (paddr len : ℕ) (buf : List ℕ)
    (valid : List Bool) (r : Cache) where
  load-Fits :
      {ret : SimError} {out : List ℕ} {s : Cache}
      → Fits r
      → load home ports paddr len buf valid r ≡ (ret, out, s)
      → Fits s
  unfolding load
  load-Fits {ret} {out} {s} h q = elim (Bool-cases (crosses_line paddr len)) [
    | inl c ↦ ground arith
    | inr c ↦ elim (Option-cases (home (addr_to_line_index paddr))) [
      | inl n ↦ ground arith
      | inr (port, e) ↦
          load_line-Fits (addr_to_line_index paddr) (paddr % 64) port len buf valid
            (recieve_msg ports r) {res = ret} {out = out} {s = s} (recieve_msg-Fits ports r h)
            (ground arith)
    ]
  ]

  store-Fits :
      {res : SimError} {s : Cache}
      → Fits r
      → store home ports paddr len buf valid r ≡ some (res, s)
      → Fits s
  unfolding store
  store-Fits {res} {s} h q = elim (Bool-cases (crosses_line paddr len)) [
    | inl c ↦ ground arith
    | inr c ↦ elim (Option-cases (home (addr_to_line_index paddr))) [
      | inl n ↦ ground arith
      | inr (port, e) ↦
          store_line-Fits (addr_to_line_index paddr) (paddr % 64) port len buf valid
            (recieve_msg ports r) {res = res} {s = s} (recieve_msg-Fits ports r h) (ground arith)
    ]
  ]

-- A load and a store leave a send buffer within its size when it was, whatever they return and
-- whatever message they take from the bus.
pub accesses-Fits :
    (home : ℕ → Option ℕ) (ports : List (Option (List ℕ))) (paddr len : ℕ) (buf : List ℕ)
    (valid : List Bool) (r : Cache) {ret res : SimError} {out : List ℕ} {s t : Cache}
    → Fits r
    → load home ports paddr len buf valid r ≡ (ret, out, s)
    → store home ports paddr len buf valid r ≡ some (res, t)
    → Fits s × Fits t
accesses-Fits home ports paddr len buf valid r h p q = (
  load-Fits home ports paddr len buf valid r h p,
  store-Fits home ports paddr len buf valid r h q,
)
