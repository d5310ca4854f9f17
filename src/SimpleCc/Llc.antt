-- ===== src/SimpleCc/Llc.antt =====
-- src/cache/simplecc/sccllc.cpp: SimpleCoherentLLCWithMem. `first` is what `*shared.begin()` picks of a
-- set without an order. Bytes outside of `mem`, where the source has undefined behaviour, are not
-- there. `none` is a block that cannot insert.
use nullrvsim.Prelude.{
  ℕ, zero, suc, ◌+◌, ◌-◌, ◌/◌, ◌%◌, Bool, true, false, ltb, ◌==◌, if◌then◌else◌, Option, none, some,
  List, [], ◌∷◌, map, get_or, set,
}
use nullrvsim.Prelude.Assoc.{find, assign, erase}
use nullrvsim.Prelude.Sets.{contains, include, remove_all}
use nullrvsim.Prelude.Words.{add32, mul32, mul64, sub64}
use nullrvsim.Cache.Lru
use nullrvsim.Cache.Lru.{Block, repeat}
use nullrvsim.Moesi.L1.Access.{read_bytes, write_bytes}
use nullrvsim.SimpleCc.Codes.Req
use nullrvsim.SimpleCc.Codes.Snoop
use nullrvsim.SimpleCc.Port.{Bundle, zeroed, retire_answer, pass_answer}

-- SCCHigherState
pub record Higher : Type 0 where
  pub owner : ℕ
  pub shared : List ℕ

pub record Llc : Type 0 where
  pub index_latency : ℕ
  pub bus_latency : ℕ
  pub mem_base_addr : ℕ
  pub memory_latency : ℕ
  pub state : List (ℕ × Higher)
  pub llc_cb : Block (List ℕ)
  pub port_num : ℕ
  pub current : ℕ
  pub busy : ℕ
  pub ports : List Bundle
  pub set_snoop : ℕ
  pub need_snoop_data : Bool
  pub who_need_snoop_data : ℕ
  pub wait_snoop_data : ℕ
  pub mem : List ℕ

-- The constructor; `bus_latency` is the number of bus words in a line.
unfoldable pub init : ℕ → ℕ → ℕ → ℕ → ℕ → ℕ → ℕ → ℕ → Llc
init set_offset way_cnt index_latency port_num bus_width mem_size mem_base_addr memory_latency =
    record {
      index_latency = index_latency;
      bus_latency = (64 + bus_width - 1) / bus_width;
      mem_base_addr = mem_base_addr;
      memory_latency = memory_latency;
      state = [];
      llc_cb = Lru.init set_offset way_cnt;
      port_num = port_num;
      current = 0;
      busy = 0;
      ports = repeat port_num zeroed;
      set_snoop = 0;
      need_snoop_data = false;
      who_need_snoop_data = 0;
      wait_snoop_data = 0;
      mem = repeat mem_size 0;
    }

abbrev pub port_at : ℕ → Llc → Bundle
port_at i r = get_or r.ports i zeroed

abbrev pub put_port : ℕ → Bundle → Llc → Llc
put_port i p r = record r { ports = set r.ports i p }

abbrev pub snoop_port : ℕ → ℕ → ℕ → Llc → Llc
snoop_port i kind line r =
    put_port i (record (port_at i r) { snoop_next = kind; snoop_line_next = line }) r

-- Where a line stands in `mem`.
abbrev pub mem_offset : ℕ → Llc → ℕ
mem_offset line r = sub64 (mul64 64 line) r.mem_base_addr

-- What handle_read and handle_readu do for a line in no first-level cache: its data comes from the
-- block or from memory, and the cache that asks becomes the owner.
unfoldable pub l1_miss : ℕ → Llc → ℕ × Llc
l1_miss idx r =
    let line = (port_at idx r).req_line in
    let q = Lru.get_line line true r.llc_cb in
    let s = record r {
      state = assign line (record { owner = idx; shared = [] }) r.state;
      llc_cb = q.1;
    } in
    elim q.0 [
      | some bytes ↦ (
        add32 (add32 1 r.index_latency) r.bus_latency,
        put_port idx (record (port_at idx s) { req_line_buf = bytes }) s,
      )
      | none ↦ (
        add32 (add32 (add32 1 r.index_latency) (mul32 r.bus_latency 2)) r.memory_latency,
        put_port idx
            (record (port_at idx s) { req_line_buf = read_bytes (mem_offset line r) 64 r.mem }) s,
      )
    ]

-- A snoop that asks the owner for the data.
abbrev pub forward : ℕ → ℕ → ℕ → ℕ → Llc → Llc
forward owner kind line idx r = record (snoop_port owner kind line r) {
  set_snoop = 2;
  need_snoop_data = true;
  who_need_snoop_data = idx;
  wait_snoop_data = owner;
}

-- The cycles that the request takes come first.
unfoldable pub handle_read : ℕ → Llc → ℕ × Llc
handle_read idx r =
    let line = (port_at idx r).req_line in
    elim (find line r.state) [
      | none ↦ l1_miss idx r
      | some s ↦ if contains idx s.shared then (1, r) else (
        add32 1 r.bus_latency,
        record (forward s.owner Snoop.share line idx r) {
          state = assign line (record s { shared = include idx s.shared }) r.state;
        },
      )
    ]

-- One turn of the loop over the caches that share the line: the snoop goes to the owner's port.
abbrev pub invalidate_one : ℕ → ℕ → ℕ → ℕ → Llc → Llc
invalidate_one other owner idx line r =
    if other == idx then r else record (snoop_port owner Snoop.inval line r) { set_snoop = 2 }

unfoldable pub invalidate : List ℕ → ℕ → ℕ → ℕ → Llc → Llc
invalidate [] owner idx line r = r
invalidate (other ∷ rest) owner idx line r =
    invalidate rest owner idx line (invalidate_one other owner idx line r)

unfoldable pub handle_readu : ℕ → Llc → ℕ × Llc
handle_readu idx r =
    let line = (port_at idx r).req_line in
    elim (find line r.state) [
      | none ↦ l1_miss idx r
      | some s ↦ (
        if s.owner == idx then 1 else add32 1 r.bus_latency,
        record (invalidate s.shared s.owner idx line (forward s.owner Snoop.uniq line idx r)) {
          state = assign line (record { owner = idx; shared = [] }) r.state;
        },
      )
    ]

-- A line that its last holder gives back goes into the block; one that the block replaces for it goes
-- to memory.
unfoldable pub write_back : ℕ → List ℕ → Llc → Option Llc
write_back line bytes r =
    let q = Lru.get_line line true r.llc_cb in
    elim q.0 [
      | some old ↦ some (record r { llc_cb = (Lru.update_line line bytes false q.1).1 })
      | none ↦ elim (Lru.insert_line line bytes q.1) [
        | none ↦ none
        | some (replaced, cb) ↦ elim replaced as (λ _. Option Llc) [
          | none ↦ some (record r { llc_cb = cb })
          | some (replaced_line, data_) ↦
              some (record r {
                llc_cb = cb;
                mem = write_bytes (mem_offset replaced_line r) data_ r.mem;
              })
        ]
      ]
    ]

-- The loop that looks for a port with a request, from `current` on and round.
unfoldable pub seek : ℕ → Llc → Llc
seek zero r = r
seek (suc i) r =
    let rest = seek i (record r { current = add32 r.current 1 % r.port_num }) in
    if (port_at r.current r).req == Req.idle then rest else r

-- The data that a snooped cache left in its bundle goes to the cache that asked.
abbrev pub pass_data : Llc → Llc
pass_data r =
    let bytes = (port_at r.wait_snoop_data r).snoop_line_buf in
    let who = r.who_need_snoop_data in
    if r.need_snoop_data
    then record (put_port who (record (port_at who r) { req_line_buf = bytes }) r) {
      need_snoop_data = false;
    }
    else r

unfoldable pub answer : Llc → Llc
answer r = record (put_port r.current (record (port_at r.current r) { req_resp_vld_next = 1 }) r) {
  busy = 0;
  current = add32 r.current 1 % r.port_num;
}

abbrev pub quiet : Bundle → Bundle
quiet p = record p { snoop_next = Snoop.idle }

module _ (first : List ℕ → ℕ) where
  -- The owner gives a line back: another holder becomes the owner, or the line is written back.
  unfoldable pub put_owned : ℕ → ℕ → Higher → Llc → Option (ℕ × Llc)
  put_owned idx line s r = elim s.shared [
    | [] ↦
        elim (write_back line (port_at idx r).req_line_buf
          (record r { state = erase line r.state })) [
            | none ↦ none
            | some t ↦ some (add32 (add32 1 r.index_latency) r.bus_latency, t)
          ]
    | k ∷ ks ↦
        let heir = first (k ∷ ks) in
        some (
          1,
          record r {
            state =
                assign line (record { owner = heir; shared = remove_all heir (k ∷ ks) }) r.state;
          },
        )
  ]

  unfoldable pub handle_put : ℕ → Llc → Option (ℕ × Llc)
  handle_put idx r =
      let line = (port_at idx r).req_line in
      elim (find line r.state) [
        | none ↦ some (1, r)
        | some s ↦
            if s.owner == idx
            then put_owned idx line s r
            else if contains idx s.shared
            then some (
              1,
              record r {
                state = assign line (record s { shared = remove_all idx s.shared }) r.state;
              },
            )
            else some (1, r)
      ]

  -- The switch on a request, which is taken from its port; its cycles become `busy`.
  unfoldable pub serve : Llc → Option Llc
  serve r =
      let idx = r.current in
      let req = (port_at idx r).req in
      let taken = put_port idx (record (port_at idx r) { req = Req.idle }) r in
      let finish = λ (n : ℕ) (s : Llc). record s { busy = n } in
      if req == Req.read
      then some (let (n, s) = handle_read idx taken in finish n s)
      else if req == Req.readu
      then some (let (n, s) = handle_readu idx taken in finish n s)
      else if req == Req.put
      then elim (handle_put idx taken) [ none ↦ none | some (n, s) ↦ some (finish n s) ]
      else some r

  -- After the withdrawals.
  unfoldable pub proceed : Llc → Option Llc
  proceed r =
      let look = serve (seek r.port_num r) in
      if ltb 1 r.set_snoop
      then some (record r { set_snoop = r.set_snoop - 1; ports = map quiet r.ports })
      else if r.set_snoop == 1
      then some (pass_data (record r { set_snoop = 0 }))
      else if ltb 1 r.busy
      then some (record r { busy = r.busy - 1 })
      else if r.busy == 1
      then some (answer r)
      else look

  unfoldable pub on_current_tick : Llc → Option Llc
  on_current_tick r = proceed (record r { ports = map retire_answer r.ports })

unfoldable pub apply_next_tick : Llc → Llc
apply_next_tick r = record r { ports = map pass_answer r.ports }
