-- ===== src/Moesi/L1/Port.antt =====
-- The cache at its bus port: recieve_msg_nolock, send_msg_nolock, and the end of a cycle.
use nullrvsim.Prelude.{
  ℕ, Bool, true, false, ◌&&◌, if◌then◌else◌, Option, none, some, List, [], ◌∷◌, get_or, set,
}
use nullrvsim.Moesi.Message.{parse_msg_pack}
use nullrvsim.Moesi.L1.{Cache, Ready}

-- The first channel on which the bus has a packet.
unfoldable pub first_packet : List (Option (List ℕ)) → Option (List ℕ)
first_packet [] = none
first_packet (none ∷ ports) = first_packet ports
first_packet (some buf ∷ ports) = some buf

-- `ports` lists, for each channel in turn, the packet that the bus can deliver.
unfoldable pub recieve_msg : List (Option (List ℕ)) → Cache → Cache
recieve_msg ports r = if r.has_recieved then r else elim (first_packet ports) [
  | none ↦ r
  | some buf ↦ record r { msgbuf = parse_msg_pack buf r.msgbuf; has_recieved = true }
]

-- The loop of send_msg_nolock: what goes onto the bus, and what stays.
unfoldable pub send_ready : List Bool → List Ready → List Ready × List Ready
send_ready can_send [] = ([], [])
send_ready can_send (m ∷ rest) =
    let go = send_ready (set can_send m.cha false) rest in
    let stay = send_ready can_send rest in
    if get_or can_send m.cha false then (m ∷ go.0, go.1) else (stay.0, m ∷ stay.1)

unfoldable pub send_msg : List Bool → Cache → List Ready × Cache
send_msg can_send r =
    let sent = send_ready can_send r.send_buf in (sent.0, record r { send_buf = sent.1 })

-- apply_next_tick but for the queues of waiting operations.
unfoldable pub apply_next_tick : Cache → Cache
apply_next_tick r =
    let done = r.has_recieved && r.has_processed in
    record r {
      has_recieved = if done then false else r.has_recieved;
      has_processed = if done then false else r.has_processed;
      arrivals = r.newlines;
      newlines = [];
    }
