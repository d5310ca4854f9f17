-- ===== src/SimpleCc/L1.antt =====
-- src/cache/simplecc/sccl1.cpp: SimpleCoherentL1. `port` points into the bundles of the last level, so
-- the methods take the bundle and return it. `none` is a failed assertion, or a block that cannot
-- insert.
use nullrvsim.Prelude.{
  ℕ, ◌%◌, Bool, true, false, not, ◌==◌, ◌&&◌, ◌||◌, if◌then◌else◌, Option, none, some, List, [],
  ◌∷◌, ◌++◌, length, take,
}
use nullrvsim.Prelude.Sets.{contains, include, remove_all}
use nullrvsim.SimError.{SimError, success, unaligned, miss, busy, unconditional}
use nullrvsim.Cache.Lru
use nullrvsim.Cache.Lru.{Block, repeat}
use nullrvsim.Moesi.L1.{Arrival, addr_to_line_index}
use nullrvsim.Moesi.L1.Access.{read_bytes, write_bytes, crosses_line}
use nullrvsim.SimpleCc.Codes.Req
use nullrvsim.SimpleCc.Codes.Snoop
use nullrvsim.SimpleCc.Port.{Bundle, retire_request, pass_request}

-- A line is its bytes; `writeable` is a set without an order.
pub record L1 : Type 0 where
  pub cb : Block (List ℕ)
  pub writeable : List ℕ
  pub waiting : ℕ
  pub wait_line : ℕ
  pub put_line_data : List ℕ
  pub arrival : List Arrival
  pub reserved_address_valid : Bool
  pub reserved_address : ℕ

-- The constructor.
unfoldable pub init : ℕ → ℕ → L1
init set_offset way_cnt = record {
  cb = Lru.init set_offset way_cnt;
  writeable = [];
  waiting = Req.idle;
  wait_line = 0;
  put_line_data = repeat 64 0;
  arrival = [];
  reserved_address_valid = false;
  reserved_address = 0;
}

-- What a snoop for data reads: the line that is on its way out, or that of the block.
unfoldable pub snoop_data : ℕ → L1 → Option (List ℕ)
snoop_data line c =
    if c.waiting == Req.put && c.wait_line == line
    then some c.put_line_data
    else (Lru.get_line line false c.cb).0

abbrev pub drop_line : ℕ → L1 → L1
drop_line line c = record c { cb = Lru.remove_line line c.cb }

-- The part of on_current_tick that answers a snoop.
unfoldable pub snooped : L1 → Bundle → Option (L1 × Bundle)
snooped c p =
    let line = p.snoop_line in
    let locked = record c { writeable = remove_all line c.writeable } in
    if p.snoop == Snoop.idle
    then some (c, p)
    else if p.snoop == Snoop.share || p.snoop == Snoop.uniq
    then elim (snoop_data line c) [
      | none ↦ none
      | some bytes ↦ some (
        if p.snoop == Snoop.uniq then drop_line line locked else locked,
        record p { snoop_line_buf = bytes; snoop = Snoop.idle },
      )
    ]
    else some (drop_line line locked, record p { snoop = Snoop.idle })

-- The line that the last level answers with goes into the block; a line that it replaces is put back.
unfoldable pub fill : L1 → Bundle → Option (L1 × Bundle)
fill c p =
    let line = c.wait_line in
    let newline = p.req_line_buf in
    let owned = if c.waiting == Req.readu then include line c.writeable else c.writeable in
    elim (Lru.insert_line line newline c.cb) [
      | none ↦ none
      | some (replaced, cb) ↦ elim replaced as (λ _. Option (L1 × Bundle)) [
        | none ↦ some (
          record c {
            cb = cb;
            writeable = owned;
            waiting = Req.idle;
            arrival =
                c.arrival
                ++ record { lindex = line; readonly = Req.idle == Req.read; bytes = newline } ∷ [];
          },
          p,
        )
        | some (replaced_line, bytes) ↦ some (
          record c {
            cb = cb;
            writeable = remove_all replaced_line owned;
            waiting = Req.put;
            wait_line = replaced_line;
            put_line_data = bytes;
            arrival =
                c.arrival
                ++ record { lindex = line; readonly = Req.put == Req.read; bytes = newline } ∷ [];
          },
          record p { req_next = Req.put; req_line_next = replaced_line; req_line_buf = bytes },
        )
      ]
    ]

-- The part of on_current_tick that takes an answer.
unfoldable pub answered : L1 → Bundle → Option (L1 × Bundle)
answered c p =
    let taken = record p { req_resp = 0 } in
    if (c.waiting == Req.read || c.waiting == Req.readu) && not (p.req_resp == 0)
    then (if p.req_line_next == c.wait_line then fill c taken else none)
    else if c.waiting == Req.put && not (p.req_resp == 0)
    then (if p.req_line_next == c.wait_line
        then some (record c { waiting = Req.idle }, taken)
        else none)
    else some (c, p)

unfoldable pub on_current_tick : L1 → Bundle → Option (L1 × Bundle)
on_current_tick c p = elim (snooped c (retire_request p)) [
  | none ↦ none
  | some (d, q) ↦ answered d q
]

unfoldable pub apply_next_tick : L1 → Bundle → L1 × Bundle
apply_next_tick c p = (record c { arrival = [] }, pass_request p)

-- `waiting = port->req_next = kind; wait_line = port->req_line_next = lindex`
abbrev pub waiting_for : ℕ → ℕ → L1 → L1
waiting_for kind lindex c = record c { waiting = kind; wait_line = lindex }

abbrev pub ask : ℕ → ℕ → Bundle → Bundle
ask kind lindex p = record p { req_next = kind; req_line_next = lindex }

-- The bytes that the load leaves in `buf` come second.
unfoldable pub load : ℕ → ℕ → List ℕ → L1 → Bundle → SimError × List ℕ × L1 × Bundle
load paddr len buf c p =
    let lindex = addr_to_line_index paddr in
    let copied = λ (bytes : List ℕ). if len == 0 then buf else read_bytes (paddr % 64) len bytes in
    let q = Lru.get_line lindex true c.cb in
    if crosses_line paddr len
    then (unaligned, buf, c, p)
    else if c.waiting == Req.read || c.waiting == Req.readu
    then (if c.wait_line == lindex then miss else busy, buf, c, p)
    else if c.waiting == Req.put && c.wait_line == lindex
    then (success, copied c.put_line_data, c, p)
    else elim q.0 [
      | some bytes ↦ (success, copied bytes, record c { cb = q.1 }, p)
      | none ↦
          if c.waiting == Req.idle
          then (
            miss,
            buf,
            waiting_for Req.read lindex (record c { cb = q.1 }),
            ask Req.read lindex p,
          )
          else (busy, buf, record c { cb = q.1 }, p)
    ]

-- A store goes into a line that is in the block and writeable; the write goes through the pointer.
unfoldable pub store : ℕ → ℕ → List ℕ → L1 → Bundle → SimError × L1 × Bundle
store paddr len buf c p =
    let lindex = addr_to_line_index paddr in
    let q = Lru.get_line lindex true c.cb in
    let tagged = record c { cb = q.1 } in
    let waiting = waiting_for Req.readu lindex tagged in
    let asked = ask Req.readu lindex p in
    if crosses_line paddr len
    then (unaligned, c, p)
    else if not (c.waiting == Req.idle)
    then (if c.wait_line == lindex then miss else busy, c, p)
    else elim q.0 [
      | none ↦ (miss, waiting, asked)
      | some bytes ↦
          if contains lindex c.writeable
          then (
            success,
            record tagged {
              cb =
                  (Lru.update_line lindex
                    (if len == 0 then bytes else write_bytes (paddr % 64) (take len buf) bytes)
                    false q.1).1;
            },
            p,
          )
          else (miss, waiting, asked)
    ]

unfoldable pub load_reserved : ℕ → ℕ → List ℕ → L1 → Bundle → SimError × List ℕ × L1 × Bundle
load_reserved paddr len buf c p =
    let (ret, out, d, q) = load paddr len buf c p in
    elim ret as (λ _. SimError × List ℕ × L1 × Bundle) [
      | success ↦
          (success, out, record d { reserved_address_valid = true; reserved_address = paddr }, q)
      | _ ↦ (ret, out, d, q)
    ]

unfoldable pub store_conditional : ℕ → ℕ → List ℕ → L1 → Bundle → SimError × L1 × Bundle
store_conditional paddr len buf c p =
    if c.reserved_address_valid && c.reserved_address == paddr
    then store paddr len buf c p
    else (unconditional, c, p)

-- The lines go to the caller, when it takes them: the caller's vector comes in their place.
unfoldable pub arrival_line : Option (List Arrival) → L1 → Option (List Arrival) × ℕ × L1
arrival_line none c = (none, 0, record c { arrival = [] })
arrival_line (some out) c = (some c.arrival, length c.arrival, record c { arrival = out })
