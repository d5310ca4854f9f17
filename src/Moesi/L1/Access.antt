-- ===== src/Moesi/L1/Access.antt =====
-- load, store, load_reserved, store_conditional and amo. `home` is busmap->get_homenode_port, and
-- `ports` what the bus can deliver.
use nullrvsim.Prelude.{
  ℕ, ◌+◌, ◌/◌, ◌%◌, Bool, true, false, not, ◌==◌, ◌&&◌, ◌||◌, if◌then◌else◌, Option, none, some,
  List, [], ◌∷◌, ◌++◌, length, take, drop,
}
use nullrvsim.Prelude.Words.{add64, sub64}
use nullrvsim.SimError.{
  SimError, success, unaligned, invalidaddr, miss, coherence, busy, unconditional, unsupported,
}
use nullrvsim.Isa.Codes.AmoOp
use nullrvsim.Isa.Codes.LsWidth
use nullrvsim.Operation.Signed.{widen}
use nullrvsim.Operation.Branch
use nullrvsim.Operation.Branch.{Outcome}
use nullrvsim.Operation.Atomic.{perform_amo_op}
use nullrvsim.Cache.Lru
use nullrvsim.Cache.Mshr
use nullrvsim.Moesi.Codes.LineState
use nullrvsim.Moesi.Codes.Pending
use nullrvsim.Moesi.Codes.MsgType
use nullrvsim.Moesi.Codes.Channel
use nullrvsim.Moesi.Message.{le_bytes, le_value}
use nullrvsim.Moesi.L1.{
  Line, Entry, Cache, addr_to_line_index, zeroed, push_send_buf, has_room, put_entry, put_line,
  remove_line, get_entry,
}
use nullrvsim.Moesi.L1.Port.{recieve_msg}

-- The bytes `src` where the mask is set, and `dst` elsewhere.
unfoldable pub masked : List Bool → List ℕ → List ℕ → List ℕ
masked (b ∷ mask) (s ∷ src) (d ∷ dst) = (if b then s else d) ∷ masked mask src dst
masked [] src dst = dst
masked (b ∷ mask) [] dst = dst
masked (b ∷ mask) (s ∷ src) [] = []

-- memcpy from and to a place in a line.
abbrev pub read_bytes : ℕ → ℕ → List ℕ → List ℕ
read_bytes offset len bytes = take len (drop offset bytes)

abbrev pub write_bytes : ℕ → List ℕ → List ℕ → List ℕ
write_bytes offset new bytes = take offset bytes ++ (new ++ drop (offset + length new) bytes)

-- What a load leaves in `buf`: under a mask only some bytes of the line.
abbrev pub loaded : ℕ → ℕ → List ℕ → List Bool → List ℕ → List ℕ
loaded offset len buf valid bytes =
    if len == 0
    then buf
    else if length valid == len
    then masked valid (read_bytes offset len bytes) buf
    else read_bytes offset len bytes

-- What a store leaves in the line.
abbrev pub stored : ℕ → ℕ → List ℕ → List Bool → List ℕ → List ℕ
stored offset len buf valid bytes =
    if len == 0
    then bytes
    else if length valid == len
    then write_bytes offset (masked valid buf (read_bytes offset len bytes)) bytes
    else write_bytes offset (take len buf) bytes

abbrev pub crosses_line : ℕ → ℕ → Bool
crosses_line paddr len = not (len == 0) && not (paddr / 64 == sub64 (add64 paddr len) 1 / 64)

-- `mshrs->alloc(lindex)` with the state that the caller sets.
unfoldable pub alloc_entry : ℕ → Entry → Cache → Option Cache
alloc_entry lindex e r = elim (Mshr.alloc zeroed lindex r.mshrs) [
  | none ↦ none
  | some mshrs ↦ some (put_entry lindex e (record r { mshrs = mshrs }))
]

-- The end of `load`: no line and no entry.
unfoldable pub load_miss : ℕ → ℕ → List ℕ → Cache → SimError × List ℕ × Cache
load_miss lindex l2_port buf r =
    if has_room 1 r
    then elim (alloc_entry lindex (record zeroed { state = Pending.itos }) r) [
      | none ↦ (busy, buf, r)
      | some s ↦
          (miss, buf, push_send_buf l2_port Channel.req MsgType.gets lindex r.my_port_id [] s)
    ]
    else (busy, buf, r)

-- `load` once the message is received.
unfoldable pub load_line : ℕ → ℕ → ℕ → ℕ → List ℕ → List Bool → Cache → SimError × List ℕ × Cache
load_line lindex offset l2_port len buf valid r =
    let q = Lru.get_line lindex true r.block in
    elim q.0 [
      | some p ↦ (success, loaded offset len buf valid p.bytes, record r { block = q.1 })
      | none ↦ elim (get_entry lindex r) [
        | some e ↦
            if e.state == Pending.stom || e.state == Pending.otom
            then (success, loaded offset len buf valid e.line_buf, r)
            else if e.state == Pending.itom || e.state == Pending.itos
            then (miss, buf, r)
            else (coherence, buf, r)
        | none ↦ load_miss lindex l2_port buf r
      ]
    ]

module _ (home : ℕ → Option ℕ) (ports : List (Option (List ℕ))) where
  unfoldable pub load : ℕ → ℕ → List ℕ → List Bool → Cache → SimError × List ℕ × Cache
  load paddr len buf valid r =
      if crosses_line paddr len
      then (unaligned, buf, r)
      else elim (home (addr_to_line_index paddr)) [
        | none ↦ (invalidaddr, buf, r)
        | some l2_port ↦
            load_line (addr_to_line_index paddr) (paddr % 64) l2_port len buf valid
              (recieve_msg ports r)
      ]

-- The end of `store`: the request for ownership, with the line that is given up, if any. A line in
-- another state than shared and owned fails an assertion.
unfoldable pub store_miss : ℕ → ℕ → Option Line → Cache → Option (SimError × Cache)
store_miss lindex l2_port hit r =
    if has_room 1 r
    then elim (alloc_entry lindex zeroed r) [
      | none ↦ some (busy, r)
      | some s ↦
          let sent = push_send_buf l2_port Channel.resp MsgType.getm lindex r.my_port_id [] s in
          elim hit [
            | none ↦ some (miss, put_entry lindex (record zeroed { state = Pending.itom }) sent)
            | some p ↦
                let kept = λ (pending : ℕ).
                  remove_line lindex (
                    put_entry lindex (record zeroed { line_buf = p.bytes; state = pending })
                      sent) in
                if p.state == LineState.shared
                then some (miss, kept Pending.stom)
                else if p.state == LineState.owned
                then some (miss, kept Pending.otom)
                else none
          ]
    ]
    else some (busy, r)

-- `store` where the line is not writable.
unfoldable pub store_wait : ℕ → ℕ → Option Line → Cache → Option (SimError × Cache)
store_wait lindex l2_port hit r = elim (get_entry lindex r) [
  | some e ↦
      if e.state == Pending.stom || e.state == Pending.otom || e.state == Pending.itom
      then some (miss, r)
      else some (coherence, r)
  | none ↦ store_miss lindex l2_port hit r
]

-- A store into a line that the cache owns alone.
abbrev pub write_hit : ℕ → List ℕ → Cache → Cache
write_hit lindex bytes r =
    record (put_line lindex (record { bytes = bytes; state = LineState.modified }) r) {
      reserved_address_valid = false;
    }

unfoldable pub store_line : ℕ → ℕ → ℕ → ℕ → List ℕ → List Bool → Cache → Option (SimError × Cache)
store_line lindex offset l2_port len buf valid r =
    let q = Lru.get_line lindex true r.block in
    let tagged = record r { block = q.1 } in
    elim q.0 [
      | none ↦ store_wait lindex l2_port none tagged
      | some p ↦
          if p.state == LineState.exclusive || p.state == LineState.modified
          then some (success, write_hit lindex (stored offset len buf valid p.bytes) tagged)
          else store_wait lindex l2_port (some p) tagged
    ]

module _ (home : ℕ → Option ℕ) (ports : List (Option (List ℕ))) where
  unfoldable pub store : ℕ → ℕ → List ℕ → List Bool → Cache → Option (SimError × Cache)
  store paddr len buf valid r =
      if crosses_line paddr len
      then some (unaligned, r)
      else elim (home (addr_to_line_index paddr)) [
        | none ↦ some (invalidaddr, r)
        | some l2_port ↦
            store_line (addr_to_line_index paddr) (paddr % 64) l2_port len buf valid
              (recieve_msg ports r)
      ]

  unfoldable pub load_reserved : ℕ → ℕ → List ℕ → Cache → SimError × List ℕ × Cache
  load_reserved paddr len buf r =
      let (ret, out, s) = load home ports paddr len buf [] r in
      elim ret as (λ _. SimError × List ℕ × Cache) [
        | success ↦
            (success, out, record s { reserved_address_valid = true; reserved_address = paddr })
        | _ ↦ (ret, out, s)
      ]

  unfoldable pub store_conditional : ℕ → ℕ → List ℕ → Cache → Option (SimError × Cache)
  store_conditional paddr len buf r =
      let conditional = r.reserved_address_valid && r.reserved_address == paddr in
      if conditional then store paddr len buf [] r else some (unconditional, r)

  -- The end of `amo`: `previous` is what memory held, `value` the register.
  unfoldable pub amo_write :
      ℕ → ℕ → ℕ → ℕ → ℕ → ℕ → List ℕ → Cache → Option (SimError × List ℕ × Cache)
  amo_write paddr len amoop wid previous value buf r =
      elim (perform_amo_op amoop wid previous value) [
        | Branch.success stvalue ↦ elim (store paddr len (le_bytes 8 stvalue) [] r) [
          | none ↦ none
          | some (success, s) ↦ some (success, le_bytes len previous, s)
          | some (res, s) ↦ some (res, buf, s)
        ]
        | _ ↦ some (unsupported, buf, r)
      ]

  -- The read-modify-write of `amo`: a store of no bytes gets the line, then the value is loaded.
  unfoldable pub amo_update : ℕ → ℕ → List ℕ → ℕ → Cache → Option (SimError × List ℕ × Cache)
  amo_update paddr len buf amoop r = elim (store paddr 0 (le_bytes 8 0) [] r) [
    | none ↦ none
    | some (success, s) ↦
        if len == 4
        then (let (res, tmp, t) = load home ports paddr 4 (le_bytes 4 0) [] s in
            elim res as (λ _. Option (SimError × List ℕ × Cache)) [
              | success ↦
                  amo_write paddr len amoop LsWidth.word (widen (le_value tmp))
                    (widen (le_value (take 4 buf))) buf t
              | other ↦ some (other, buf, t)
            ])
        else (let (res, tmp, t) = load home ports paddr 8 (le_bytes 8 0) [] s in
            elim res as (λ _. Option (SimError × List ℕ × Cache)) [
              | success ↦
                  amo_write paddr len amoop LsWidth.dword (le_value tmp) (le_value (take 8 buf)) buf
                    t
              | other ↦ some (other, buf, t)
            ])
    | some (other, s) ↦ some (other, buf, s)
  ]

  unfoldable pub amo : ℕ → ℕ → List ℕ → ℕ → Cache → Option (SimError × List ℕ × Cache)
  amo paddr len buf amoop r =
      if amoop == AmoOp.sc
      then elim (store_conditional paddr len buf r) [
        | none ↦ none
        | some (res, s) ↦ some (res, buf, s)
      ]
      else if amoop == AmoOp.lr
      then some (load_reserved paddr len buf r)
      else amo_update paddr len buf amoop r
