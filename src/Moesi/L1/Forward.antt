-- ===== src/Moesi/L1/Forward.antt =====
-- handle_received_msg_nolock: the messages on a line that the cache has or gives back. Each type of
-- message has its function.
use nullrvsim.Prelude.{ℕ, Bool, false, ◌==◌, ◌&&◌, ◌||◌, if◌then◌else◌, Option, none, some, []}
use nullrvsim.Cache.Mshr
use nullrvsim.Moesi.Codes.LineState
use nullrvsim.Moesi.Codes.Pending
use nullrvsim.Moesi.Codes.MsgType
use nullrvsim.Moesi.Codes.Channel
use nullrvsim.Moesi.L1.{
  Entry, Cache, addr_to_line_index, push_send_buf, has_room, put_entry, put_line, remove_line,
  get_line, get_entry,
}

-- What a handler does: an assertion fails, or it returns early and the message stays to be handled,
-- or it is through.
pub data Handled : Type 0 where
  failed : Handled
  later : Handled
  done : Cache → Handled

unfoldable pub remove_entry : ℕ → Cache → Cache
remove_entry lindex r = record r { mshrs = Mshr.remove lindex r.mshrs }

-- What an invalidation makes of a pending state.
unfoldable pub invalidated : ℕ → Option ℕ
invalidated state =
    if state == Pending.stoi || state == Pending.mtoi || state == Pending.otoi
    then some Pending.itoi
    else if state == Pending.otom || state == Pending.stom || state == Pending.itom
    then some Pending.itom
    else none

-- MSG_INVALID
unfoldable pub handle_invalid : ℕ → ℕ → Cache → Handled
handle_invalid lindex arg r =
    if has_room 1 r
    then (let s =
          remove_line lindex (push_send_buf arg Channel.ack MsgType.invalid_ack lindex 0 [] r) in
        let unreserve = λ (t : Cache).
          if t.reserved_address_valid && lindex == addr_to_line_index t.reserved_address
          then record t { reserved_address_valid = false }
          else t in
        elim (get_entry lindex s) [
          | none ↦ done (unreserve s)
          | some e ↦ elim (invalidated e.state) [
            | none ↦ failed
            | some state ↦ done (unreserve (put_entry lindex (record e { state = state }) s))
          ]
        ])
    else later

-- The states in which an entry still has the line.
abbrev pub has_line : Entry → Bool
has_line e =
    e.state == Pending.stom
    || e.state == Pending.mtoi
    || e.state == Pending.stoi
    || e.state == Pending.etoi
    || e.state == Pending.otom
    || e.state == Pending.otoi

-- MSG_GETS_FORWARD. Not exactly one of the block and the entry has the line: an assertion fails.
unfoldable pub handle_gets_forward : ℕ → ℕ → Cache → Handled
handle_gets_forward lindex arg r =
    if has_room 1 r
    then elim (get_line lindex r) [
      | some p ↦
          let sent = done (
            put_line lindex (record p { state = LineState.owned })
              (push_send_buf arg Channel.resp MsgType.gets_resp lindex 1 p.bytes r)) in
          elim (get_entry lindex r) [ none ↦ sent | some e ↦ if has_line e then failed else sent ]
      | none ↦ elim (get_entry lindex r) [
        | none ↦ failed
        | some e ↦
            if has_line e
            then (let sent =
                  push_send_buf arg Channel.resp MsgType.gets_resp lindex 1 e.line_buf r in
                if e.state == Pending.mtoi || e.state == Pending.etoi || e.state == Pending.stoi
                then done (put_entry lindex (record e { state = Pending.otoi }) sent)
                else done sent)
            else failed
      ]
    ]
    else later

-- MSG_GETM_FORWARD
unfoldable pub handle_getm_forward : ℕ → ℕ → Cache → Handled
handle_getm_forward lindex arg r =
    if has_room 1 r
    then elim (get_line lindex r) [
      | some p ↦
          let sent = done (
            remove_line lindex
              (push_send_buf arg Channel.resp MsgType.getm_resp lindex 0 p.bytes r)) in
          elim (get_entry lindex r) [ none ↦ sent | some e ↦ if has_line e then failed else sent ]
      | none ↦ elim (get_entry lindex r) [
        | none ↦ failed
        | some e ↦
            if has_line e
            then (let state =
                  if e.state == Pending.stom || e.state == Pending.otom
                  then Pending.itom
                  else Pending.itoi in
                done (
                  put_entry lindex (record e { state = state })
                    (push_send_buf arg Channel.resp MsgType.getm_resp lindex 0 e.line_buf r)))
            else failed
      ]
    ]
    else later

-- MSG_PUT_ACK
unfoldable pub handle_put_ack : ℕ → Cache → Handled
handle_put_ack lindex r = elim (get_entry lindex r) [
  | none ↦ failed
  | some e ↦
      if e.state == Pending.itoi
        || e.state == Pending.mtoi
        || e.state == Pending.stoi
        || e.state == Pending.etoi
        || e.state == Pending.otoi
      then done (remove_entry lindex r)
      else failed
]
