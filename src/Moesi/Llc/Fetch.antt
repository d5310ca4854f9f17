-- ===== src/Moesi/Llc/Fetch.antt =====
-- LLCMoesiDirNoi::p1_fetch: a message is received, and a request whose line is not being processed goes
-- on to the index stage. `none` is a failed assertion.
use nullrvsim.Prelude.{
  ℕ, Bool, not, ltb, ◌==◌, ◌||◌, if◌then◌else◌, Option, none, some, List, [], ◌∷◌, ◌++◌, length,
}
use nullrvsim.Prelude.Sets.{contains, insert_sorted, remove_all}
use nullrvsim.Cache.Lru
use nullrvsim.TickQueue
use nullrvsim.Moesi.Codes.MsgType
use nullrvsim.Moesi.Message.{Msg, parse_msg_pack}
use nullrvsim.Moesi.MemNode.{blank}
use nullrvsim.Moesi.L1.{line_len}
use nullrvsim.Moesi.L1.Port.{first_packet}
use nullrvsim.Moesi.Llc.{Llc, Package, fresh, nuca_check, lindex_to_nuca_tag}

-- `processing_lindex.erase(line); block->unpin(...)`
abbrev pub release : ℕ → Llc → Llc
release line r = record r {
  processing_lindex = remove_all line r.processing_lindex;
  block = Lru.unpin (lindex_to_nuca_tag line r) r.block;
}

-- Requests that bring a line.
abbrev pub is_dirty_put : ℕ → Bool
is_dirty_put t = t == MsgType.putm || t == MsgType.puto

abbrev pub is_plain_request : ℕ → Bool
is_plain_request t =
    t == MsgType.gets || t == MsgType.getm || t == MsgType.puts || t == MsgType.pute

-- The switch on a received message.
unfoldable pub accept : Msg → Llc → Option Llc
accept msg r =
    let queued = record r { recv_buf = r.recv_buf ++ msg ∷ [] } in
    if not (nuca_check msg.line r)
    then none
    else if msg.type_ == MsgType.invalid_ack
    then some r
    else if msg.type_ == MsgType.get_ack
    then some (release msg.line r)
    else if is_dirty_put msg.type_
    then (if length msg.data_ == line_len then some queued else none)
    else if is_plain_request msg.type_
    then some queued
    else none

unfoldable pub receive : List (Option (List ℕ)) → Llc → Option Llc
receive ports r =
    if ltb (length r.recv_buf) r.recv_buf_size
    then elim (first_packet ports) [
      | none ↦ some r
      | some buf ↦ accept (parse_msg_pack buf blank) r
    ]
    else some r

-- The package of a request; data of another length than a line's fails an assertion.
unfoldable pub make_package : Msg → Llc → Option Package
make_package msg r =
    let topush = record fresh {
      type_ = msg.type_;
      lindex = msg.line;
      arg = msg.arg;
      transid = msg.transid;
      index_cycle = r.index_cycle;
    } in
    if length msg.data_ == 0
    then some topush
    else if length msg.data_ == line_len
    then some (record topush { line_buf = msg.data_ })
    else none

-- The first request whose line is not being processed, and the requests that stay.
unfoldable pub next_request : List ℕ → List Msg → Option (Msg × List Msg)
next_request busy [] = none
next_request busy (msg ∷ rest) =
    let later = next_request busy rest in
    if contains msg.line busy
    then elim later [ none ↦ none | some (found, left) ↦ some (found, msg ∷ left) ]
    else some (msg, rest)

-- The loop over `recv_buf`.
unfoldable pub start : Llc → Option Llc
start r = elim (next_request r.processing_lindex r.recv_buf) [
  | none ↦ some r
  | some (msg, left) ↦ elim (make_package msg r) [
    | none ↦ none
    | some topush ↦ some (record r {
      queue_index = (TickQueue.push topush r.queue_index).1;
      processing_lindex = insert_sorted msg.line r.processing_lindex;
      block = Lru.pin (lindex_to_nuca_tag msg.line r) r.block;
      recv_buf = left;
    })
  ]
]

unfoldable pub p1_fetch : List (Option (List ℕ)) → Llc → Option Llc
p1_fetch ports r = elim (receive ports r) [
  | none ↦ none
  | some s ↦ if TickQueue.can_push s.queue_index == 0 then some s else start s
]
