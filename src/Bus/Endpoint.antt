-- ===== src/Bus/Endpoint.antt =====
-- src/bus/symmulcha.cpp: SymmetricMultiChannelBus::can_send and send for a port and a channel of the bus.
-- `widths` has the bytes of the channels, `home d` is port2node[d], `xmt` is xmtid_alloc. `none` is a failed
-- assertion: a channel or a port that is not there.
use nullrvsim.Prelude.{
  ℕ, ◌+◌, ◌%◌, ◌^◌, Bool, ltb, ◌==◌, if◌then◌else◌, Option, none, some, List, [], length, get_or,
  set,
}
use nullrvsim.Prelude.Assoc.{find, assign}
use nullrvsim.Bus.Packs.{MsgPack, send}
use nullrvsim.Bus.Node.{Wires}

unfoldable pub can_send_at : List ℕ → ℕ → ℕ → Wires → Option Bool
can_send_at widths port channel w =
    if ltb channel (length widths)
    then elim (find port w.ports) [
      | none ↦ none
      | some p ↦ some (length (get_or p.send_buf channel []) == 0)
    ]
    else none

-- What the packages of a message share; `send` fills in the rest.
abbrev pub header : (ℕ → ℕ) → ℕ → ℕ → ℕ → ℕ → MsgPack
header home port dst channel xmt = record {
  src = port;
  dst = dst;
  tgt = home dst;
  cha = channel;
  xmtid = xmt;
  len = 0;
  pac_idx = 0;
  pac_cnt = 0;
  data_ = [];
}

-- Whether it sends, the ports, and the next xmtid.
unfoldable pub send_at :
    (ℕ → ℕ) → List ℕ → ℕ → ℕ → ℕ → List ℕ → ℕ → Wires → Option (Bool × Wires × ℕ)
send_at home widths port dst channel data_ xmt w =
    if ltb channel (length widths)
    then elim (find port w.ports) [
      | none ↦ none
      | some p ↦
          let (sent, sbuf) =
            send (header home port dst channel xmt) (get_or widths channel 0) data_
              (get_or p.send_buf channel []) in
          some (
            sent,
            record w {
              ports = assign port (record p { send_buf = set p.send_buf channel sbuf }) w.ports;
            },
            if sent then (xmt + 1) % 2 ^ 32 else xmt,
          )
    ]
    else none
