-- ===== src/Moesi/MemNode.antt =====
-- src/cache/moesi/memnode.cpp: MemoryNode::on_current_tick. `is_responsible` and `local_offset` are the
-- methods of MemCtrlLineAddrMap; what the bus can deliver on each channel and whether it has room on
-- the response channel are arguments, and what is sent is a result. `none` is a failed assertion.
use nullrvsim.Prelude.{
  ℕ, ◌+◌, ◌-◌, min, Bool, true, false, ltb, leb, not, ◌==◌, ◌&&◌, ◌||◌, if◌then◌else◌, Option, none,
  some, List, [], ◌∷◌, ◌++◌, length,
}
use nullrvsim.Moesi.Codes.MsgType
use nullrvsim.Moesi.Message.{Msg, parse_msg_pack, construct_msg_pack}
use nullrvsim.Moesi.L1.{line_len}
use nullrvsim.Moesi.L1.Port.{first_packet}
use nullrvsim.Moesi.L1.Access.{read_bytes, write_bytes}
use nullrvsim.Cache.Lru.{repeat}

-- MemBuf; `op` is whether it writes.
pub record MemBuf : Type 0 where
  pub lindex : ℕ
  pub hostoff : ℕ
  pub src_port : ℕ
  pub transid : ℕ
  pub op : Bool
  pub linebuf : List ℕ
  pub processed : ℕ

pub record MemoryNode : Type 0 where
  pub memblk : List ℕ
  pub membufs : List MemBuf
  pub dwidth : ℕ
  pub memory_access_buf_size : ℕ

abbrev pub blank : Msg
blank = record { type_ = 0; arg = 0; transid = 0; line = 0; data_ = [] }

-- What a message asks for; the data of a write is a whole line.
unfoldable pub operation : Msg → Option (Bool × List ℕ)
operation msg =
    if msg.type_ == MsgType.gets_forward || msg.type_ == MsgType.getm_forward
    then some (false, repeat 64 0)
    else if msg.type_ == MsgType.putm || msg.type_ == MsgType.puto
    then if length msg.data_ == line_len then some (true, msg.data_) else none
    else none

unfoldable pub accept : (ℕ → Bool) → (ℕ → ℕ) → Msg → MemoryNode → Option MemoryNode
accept is_responsible local_offset msg r =
    if not (is_responsible msg.line) then none else elim (operation msg) [
      | none ↦ none
      | some (op, linebuf) ↦ some (record r {
        membufs =
            r.membufs
            ++ record {
              lindex = msg.line;
              hostoff = local_offset msg.line;
              src_port = msg.arg;
              transid = msg.transid;
              op = op;
              linebuf = linebuf;
              processed = 0;
            }
              ∷ [];
      })
    ]

-- The next part of a line, into memory or out of it.
unfoldable pub transfer : ℕ → MemBuf → List ℕ → MemBuf × List ℕ
transfer dwidth mb memblk =
    let sz = min dwidth (line_len - mb.processed) in
    if mb.op
    then (
      record mb { processed = mb.processed + sz },
      write_bytes (mb.hostoff + mb.processed) (read_bytes mb.processed sz mb.linebuf) memblk,
    )
    else (
      record mb {
        processed = mb.processed + sz;
        linebuf =
            write_bytes mb.processed (read_bytes (mb.hostoff + mb.processed) sz memblk) mb.linebuf;
      },
      memblk,
    )

-- The first buffer that is not through goes on; a write that is through is erased.
unfoldable pub process : ℕ → List MemBuf → List ℕ → List MemBuf × List ℕ
process dwidth [] memblk = ([], memblk)
process dwidth (mb ∷ rest) memblk =
    let moved = transfer dwidth mb memblk in
    let later = process dwidth rest memblk in
    if ltb mb.processed line_len
    then (if leb line_len moved.0.processed && mb.op
        then (rest, moved.1)
        else (moved.0 ∷ rest, moved.1))
    else (mb ∷ later.0, later.1)

-- The first buffer that is through is answered: the destination and the packet, if any. A write that
-- is through fails an assertion.
unfoldable pub respond : List MemBuf → Option (Option (ℕ × List ℕ) × List MemBuf)
respond [] = some (none, [])
respond (mb ∷ rest) =
    let later = respond rest in
    if leb line_len mb.processed
    then (if mb.op
        then none
        else some (
          some (
            mb.src_port,
            construct_msg_pack (record {
              type_ = MsgType.get_resp_mem;
              arg = 0;
              transid = mb.transid;
              line = mb.lindex;
              data_ = mb.linebuf;
            }),
          ),
          rest,
        ))
    else elim later [ none ↦ none | some (sent, left) ↦ some (sent, mb ∷ left) ]

-- The part of on_current_tick that receives.
unfoldable pub receive :
    (ℕ → Bool) → (ℕ → ℕ) → List (Option (List ℕ)) → MemoryNode → Option MemoryNode
receive is_responsible local_offset ports r =
    if ltb (length r.membufs) r.memory_access_buf_size
    then elim (first_packet ports) [
      | none ↦ some r
      | some buf ↦ accept is_responsible local_offset (parse_msg_pack buf blank) r
    ]
    else some r

unfoldable pub on_current_tick :
    (ℕ → Bool)
    → (ℕ → ℕ)
    → List (Option (List ℕ))
    → Bool
    → MemoryNode
    → Option (Option (ℕ × List ℕ) × MemoryNode)
on_current_tick is_responsible local_offset ports can_send r =
    elim (receive is_responsible local_offset ports r) [
      | none ↦ none
      | some s ↦
          let (membufs, memblk) = process s.dwidth s.membufs s.memblk in
          let t = record s { membufs = membufs; memblk = memblk } in
          if can_send
          then elim (respond membufs) [
            | none ↦ none
            | some (sent, left) ↦ some (sent, record t { membufs = left })
          ]
          else some (none, t)
    ]
