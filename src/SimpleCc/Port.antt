-- ===== src/SimpleCc/Port.antt =====
-- SCCBundle of src/cache/simplecc/sccllc.h, the registers between a first-level cache and the last
-- level, without padding and the index that only the debug output reads; and what each side does with
-- its registers at the start of a cycle (on_current_tick) and at its end (apply_next_tick).
use nullrvsim.Prelude.{ℕ, not, ◌==◌, ◌&&◌, if◌then◌else◌, List}
use nullrvsim.Cache.Lru.{repeat}
use nullrvsim.SimpleCc.Codes.Req
use nullrvsim.SimpleCc.Codes.Snoop

pub record Bundle : Type 0 where
  pub req_next : ℕ
  pub req_previous : ℕ
  pub req_line_next : ℕ
  pub req_resp : ℕ
  pub snoop : ℕ
  pub snoop_line : ℕ
  pub req : ℕ
  pub req_line : ℕ
  pub req_resp_vld_next : ℕ
  pub req_resp_vld_previous : ℕ
  pub snoop_next : ℕ
  pub snoop_previous : ℕ
  pub snoop_line_next : ℕ
  pub req_line_buf : List ℕ
  pub snoop_line_buf : List ℕ

-- What memset leaves of a bundle.
abbrev pub zeroed : Bundle
zeroed = record {
  req_next = 0;
  req_previous = 0;
  req_line_next = 0;
  req_resp = 0;
  snoop = 0;
  snoop_line = 0;
  req = 0;
  req_line = 0;
  req_resp_vld_next = 0;
  req_resp_vld_previous = 0;
  snoop_next = 0;
  snoop_previous = 0;
  snoop_line_next = 0;
  req_line_buf = repeat 64 0;
  snoop_line_buf = repeat 64 0;
}

-- The first-level cache: a request that was passed on is withdrawn.
unfoldable pub retire_request : Bundle → Bundle
retire_request p =
    if not (p.req_previous == Req.idle) && p.req_previous == p.req_next
    then record p { req_previous = Req.idle; req_next = Req.idle }
    else p

-- SimpleCoherentL1::apply_next_tick, the part on the bundle.
unfoldable pub pass_request : Bundle → Bundle
pass_request p =
    let q =
      if p.req_next == p.req_previous
      then p
      else record p { req = p.req_next; req_line = p.req_line_next } in
    record q { req_previous = q.req_next }

-- The last level: an answer and a snoop that were passed on are withdrawn.
unfoldable pub retire_answer : Bundle → Bundle
retire_answer p =
    let q =
      if p.req_resp_vld_next == p.req_resp_vld_previous && not (p.req_resp_vld_previous == 0)
      then record p { req_resp_vld_previous = 0; req_resp_vld_next = 0 }
      else p in
    if q.snoop_next == q.snoop_previous && not (q.snoop_previous == Snoop.idle)
    then record q { snoop_previous = Snoop.idle; snoop_next = Snoop.idle }
    else q

-- One turn of SimpleCoherentLLCWithMem::apply_next_tick.
unfoldable pub pass_answer : Bundle → Bundle
pass_answer p =
    let q =
      if p.req_resp_vld_next == p.req_resp_vld_previous
      then p
      else record p { req_resp = p.req_resp_vld_next } in
    let r = record q { req_resp_vld_previous = q.req_resp_vld_next } in
    let s =
      if r.snoop_next == r.snoop_previous
      then r
      else record r { snoop = r.snoop_next; snoop_line = r.snoop_line_next } in
    record s { snoop_previous = s.snoop_next }
