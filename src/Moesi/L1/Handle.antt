-- ===== src/Moesi/L1/Handle.antt =====
-- handle_received_msg_nolock: the messages that answer a request of this cache, and the dispatch.
use nullrvsim.Prelude.{
  ℕ, ◌+◌, ◌%◌, ◌^◌, true, ltb, not, ◌==◌, ◌&&◌, ◌||◌, if◌then◌else◌, Option, none, some, List, take,
}
use nullrvsim.Moesi.Codes.LineState
use nullrvsim.Moesi.Codes.Pending
use nullrvsim.Moesi.Codes.MsgType
use nullrvsim.Moesi.L1.{Entry, Cache, has_room, put_entry, get_entry, line_len}
use nullrvsim.Moesi.L1.Forward.{
  Handled, failed, later, done, handle_invalid, handle_gets_forward, handle_getm_forward,
  handle_put_ack,
}
use nullrvsim.Moesi.L1.Install.{acknowledge, install, finish_getm}

abbrev pub count_ack : Entry → Entry
count_ack e = record e { invalid_ack = (e.invalid_ack + 1) % 2 ^ 16 }

abbrev pub await_acks : ℕ → Entry → Entry
await_acks arg e = record e { get_ack_cnt_ready = 1; need_invalid_ack = arg % 2 ^ 16 }

module _ (home : ℕ → Option ℕ) where
  -- MSG_INVALID_ACK
  unfoldable pub handle_invalid_ack : ℕ → ℕ → Cache → Handled
  handle_invalid_ack l2_port lindex r = elim (get_entry lindex r) [
    | none ↦ failed
    | some e ↦
        let waiting = e.get_ack_cnt_ready == 0 || not (e.need_invalid_ack == e.invalid_ack + 1) in
        if e.state == Pending.itom
        then (if waiting || e.get_data_ready == 0
            then done (put_entry lindex (count_ack e) r)
            else finish_getm home l2_port lindex e r)
        else if e.state == Pending.stom || e.state == Pending.otom
        then (if waiting
            then done (put_entry lindex (count_ack e) r)
            else finish_getm home l2_port lindex e r)
        else done r
  ]

  -- MSG_GETM_ACK
  unfoldable pub handle_getm_ack : ℕ → ℕ → ℕ → Cache → Handled
  handle_getm_ack l2_port lindex arg r = elim (get_entry lindex r) [
    | none ↦ failed
    | some e ↦
        if e.state == Pending.itom
        then (if not (arg == e.invalid_ack) || e.get_data_ready == 0
            then done (put_entry lindex (await_acks arg e) r)
            else finish_getm home l2_port lindex e r)
        else if e.state == Pending.stom || e.state == Pending.otom
        then (if not (arg == e.invalid_ack)
            then done (put_entry lindex (await_acks arg e) r)
            else finish_getm home l2_port lindex e r)
        else done r
  ]

  -- MSG_GETS_RESP. The assertion reads `… && MSHR_ITOS`, which only asks for an entry.
  unfoldable pub handle_gets_resp : ℕ → ℕ → ℕ → List ℕ → Cache → Handled
  handle_gets_resp l2_port lindex arg bytes r =
      if has_room 2 r
      then elim (get_entry lindex r) [
        | none ↦ failed
        | some e ↦
            let e' = record e { line_buf = take line_len bytes } in
            let held = put_entry lindex e' r in
            if ltb 0 arg
            then install home lindex e' LineState.shared (acknowledge l2_port lindex held)
            else install home lindex e' LineState.exclusive held
      ]
      else later

  -- MSG_GETM_RESP
  unfoldable pub handle_getm_resp : ℕ → ℕ → ℕ → List ℕ → Cache → Handled
  handle_getm_resp l2_port lindex arg bytes r = elim (get_entry lindex r) [
    | none ↦ failed
    | some e ↦
        let e' = record e { line_buf = take line_len bytes } in
        if e.state == Pending.itom
        then (if arg == 0 && (e.get_ack_cnt_ready == 0 || not (e.need_invalid_ack == e.invalid_ack))
            then done (put_entry lindex (record e' { get_data_ready = 1 }) r)
            else if has_room 2 r
            then install home lindex e' LineState.modified
                (put_entry lindex e' (if arg == 0 then acknowledge l2_port lindex r else r))
            else later)
        else failed
  ]

  -- MSG_GET_RESP_MEM
  unfoldable pub handle_get_resp_mem : ℕ → ℕ → List ℕ → Cache → Handled
  handle_get_resp_mem l2_port lindex bytes r =
      if has_room 2 r
      then elim (get_entry lindex r) [
        | none ↦ failed
        | some e ↦
            let e' = record e { line_buf = take line_len bytes } in
            let held = put_entry lindex e' (acknowledge l2_port lindex r) in
            if e.state == Pending.itom
            then install home lindex e' LineState.modified held
            else if e.state == Pending.itos
            then install home lindex e' LineState.exclusive held
            else failed
      ]
      else later

  unfoldable pub dispatch : ℕ → Cache → Handled
  dispatch l2_port r =
      let m = r.msgbuf in
      if m.type_ == MsgType.invalid
      then handle_invalid m.line m.arg r
      else if m.type_ == MsgType.invalid_ack
      then handle_invalid_ack l2_port m.line r
      else if m.type_ == MsgType.gets_forward
      then handle_gets_forward m.line m.arg r
      else if m.type_ == MsgType.getm_forward
      then handle_getm_forward m.line m.arg r
      else if m.type_ == MsgType.getm_ack
      then handle_getm_ack l2_port m.line m.arg r
      else if m.type_ == MsgType.gets_resp
      then handle_gets_resp l2_port m.line m.arg m.data_ r
      else if m.type_ == MsgType.getm_resp
      then handle_getm_resp l2_port m.line m.arg m.data_ r
      else if m.type_ == MsgType.get_resp_mem
      then handle_get_resp_mem l2_port m.line m.data_ r
      else if m.type_ == MsgType.put_ack
      then handle_put_ack m.line r
      else done r

  -- handle_received_msg_nolock; `none` is a failed assertion.
  unfoldable pub handle_received_msg : Cache → Option Cache
  handle_received_msg r =
      if not r.has_recieved || r.has_processed then some r else elim (home r.msgbuf.line) [
        | none ↦ none
        | some l2_port ↦ elim (dispatch l2_port r) [
          | failed ↦ none
          | later ↦ some r
          | done s ↦ some (record s { has_processed = true })
        ]
      ]
