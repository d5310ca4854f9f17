-- ===== src/SimpleCc/Transfer.antt =====
-- The way of a line from the cache that owns it to the one that asks to write it: the last level, the
-- bundle, the owner's cache, and the last level again.
use nullrvsim.Prelude.{
  ℕ, ◌<◌, ◌≡◌, ◌≢◌, ◌∙◌, refl, ap, true, false, if◌then◌else◌, Option, none, some, List, length,
  length-set, get_or-set_self, arith,
}
use nullrvsim.Prelude.Assoc.{find}
use nullrvsim.Prelude.Sets.{contains, remove_all, contains-remove_all}
use nullrvsim.Cache.Lru.{remove_line}
use nullrvsim.Cache.Lookup.{lookup, IsWhole}
use nullrvsim.Cache.Replace.{lookup-remove_line}
use nullrvsim.SimpleCc.Codes.Snoop
use nullrvsim.SimpleCc.Port.{Bundle, zeroed, pass_answer}
use nullrvsim.SimpleCc.L1.{L1, snoop_data, snooped}
use nullrvsim.SimpleCc.Llc.{Llc, Higher, port_at, put_port, apply_next_tick, handle_readu}
use nullrvsim.SimpleCc.Cycles.{get_or-map, length-map, two_cycles, Waits, two_cycles-data}
use nullrvsim.SimpleCc.Readu.{third, handle_readu_lem}

-- The cache at port `o` answers the snoop that lies in its bundle.
abbrev pub exchange : ℕ → L1 → Llc → Option (L1 × Llc)
exchange o c r = elim (snooped c (port_at o r)) [
  | none ↦ none
  | some (d, p) ↦ some (d, put_port o p r)
]

pass_answer-snoop :
    (p : Bundle)
    → p.snoop_previous ≡ 0
    → p.snoop_next ≢ 0
    → ((pass_answer p).snoop ≡ p.snoop_next)
      × ((pass_answer p).snoop_line ≡ p.snoop_line_next)
      × ((pass_answer p).snoop_line_buf ≡ p.snoop_line_buf)
unfolding pass_answer
pass_answer-snoop p h k = ground arith

-- What a cache makes of a snoop that takes the line away.
snooped-uniq :
    (c : L1) (p : Bundle) (bytes : List ℕ)
    → p.snoop ≡ Snoop.uniq
    → snoop_data p.snoop_line c ≡ some bytes
    → (d : L1) × (snooped c p ≡ some (d, record p { snoop_line_buf = bytes; snoop = Snoop.idle }))
      × (d.cb ≡ remove_line p.snoop_line c.cb)
      × (d.writeable ≡ remove_all p.snoop_line c.writeable)
unfolding snooped
snooped-uniq c p bytes u h = (
  record c { cb = remove_line p.snoop_line c.cb; writeable = remove_all p.snoop_line c.writeable },
  ground arith,
  refl,
  refl,
)

snooped-inval :
    (c : L1) (p : Bundle)
    → p.snoop ≡ Snoop.inval
    → (d : L1) × (snooped c p ≡ some (d, record p { snoop = Snoop.idle }))
unfolding snooped
snooped-inval c p u = (
  record c { cb = remove_line p.snoop_line c.cb; writeable = remove_all p.snoop_line c.writeable },
  ground arith,
)

exchange_lem :
    (o : ℕ) (c : L1) (r : Llc) {d : L1} {p : Bundle}
    → snooped c (port_at o r) ≡ some (d, p)
    → exchange o c r ≡ some (d, put_port o p r)
exchange_lem o c r e =
    ap
      (λ (x : Option (L1 × Bundle)). elim x as (λ _. Option (L1 × Llc)) [
        | none ↦ none
        | some (d, p) ↦ some (d, put_port o p r)
      ])
      e

-- The snoop that lies in the owner's bundle at the end of the cycle that took the request.
abbrev pub asked : ℕ → Llc → Llc
asked idx r = apply_next_tick (handle_readu idx r).1

module _ (idx : ℕ) (r : Llc) (s : Higher) (found : find (port_at idx r).req_line r.state ≡ some s)
    (in_range : s.owner < length r.ports)
    (quiet_port : (port_at s.owner r).snoop_previous ≡ 0) where
  abbrev kind : ℕ
  kind = if third s.shared idx then Snoop.inval else Snoop.uniq

  asked-port :
      port_at s.owner (asked idx r)
      ≡ pass_answer (record (port_at s.owner r) {
        snoop_next = kind;
        snoop_line_next = (port_at idx r).req_line;
      })
  unfolding apply_next_tick pass_answer
  asked-port =
      ap (λ (t : Llc). port_at s.owner (apply_next_tick t))
        (handle_readu_lem idx r s found in_range)
      ∙ get_or-map pass_answer _ s.owner refl
      ∙ ap pass_answer (get_or-set_self r.ports s.owner _ zeroed in_range)

  asked-snoop :
      ((port_at s.owner (asked idx r)).snoop ≡ kind)
      × ((port_at s.owner (asked idx r)).snoop_line ≡ (port_at idx r).req_line)
      × ((port_at s.owner (asked idx r)).snoop_line_buf ≡ (port_at s.owner r).snoop_line_buf)
  asked-snoop = rw asked-port (pass_answer-snoop _ quiet_port (ground arith))

  asked-Waits : Waits idx s.owner (asked idx r)
  unfolding apply_next_tick
  asked-Waits = rw (handle_readu_lem idx r s found in_range) (refl, refl, refl, refl)

  asked-length : length (asked idx r).ports ≡ length r.ports
  unfolding apply_next_tick
  asked-length =
      rw (handle_readu_lem idx r s found in_range)
        (omega (arith, length-map pass_answer, length-set r.ports s.owner))

  module _ (first : List ℕ → ℕ) (here : idx < length r.ports) where
    -- What the cache that asks is left with once the owner's bundle has changed.
    delivered :
        (p : Bundle)
        → (u : Llc) × (two_cycles first (put_port s.owner p (asked idx r)) ≡ some u)
          × ((port_at idx u).req_line_buf ≡ p.snoop_line_buf)
    delivered p =
        let t = put_port s.owner p (asked idx r) in
        let wide = length-set (asked idx r).ports s.owner p in
        let (u, run, got) =
          two_cycles-data first idx s.owner t asked-Waits (omega (arith, wide, asked-length)) in
        (
          u,
          run,
          got
              ∙ ap (λ (q : Bundle). q.snoop_line_buf)
                  (get_or-set_self (asked idx r).ports s.owner p zeroed
                    (omega (arith, asked-length))),
        )

    -- Where the line that a cache asks to write has an owner at a port whose last snoop is withdrawn,
    -- and no third cache shares it, and the owner's cache has its bytes, the request, the owner's answer
    -- and two cycles of the last level bring these bytes to the cache that asked, and leave the owner
    -- without the line and without the right to write it.
    pub readu-delivers :
        (c : L1) (bytes : List ℕ)
        → IsWhole c.cb
        → third s.shared idx ≡ false
        → snoop_data (port_at idx r).req_line c ≡ some bytes
        → (d : L1) × (t u : Llc) × (exchange s.owner c (asked idx r) ≡ some (d, t))
          × (two_cycles first t ≡ some u)
          × ((port_at idx u).req_line_buf ≡ bytes)
          × (lookup d.cb (port_at idx r).req_line ≡ none)
          × (contains (port_at idx r).req_line d.writeable ≡ false)
    readu-delivers c bytes whole alone has =
        let line = (port_at idx r).req_line in
        let p = port_at s.owner (asked idx r) in
        let (snoop, at_line, kept) = asked-snoop in
        let (d, step, block, rights) =
          snooped-uniq c p bytes (ground arith) (ap (λ (l : ℕ). snoop_data l c) at_line ∙ has) in
        let q = record p { snoop_line_buf = bytes; snoop = Snoop.idle } in
        let (u, run, got) = delivered q in
        (
          d,
          put_port s.owner q (asked idx r),
          u,
          exchange_lem s.owner c (asked idx r) step,
          run,
          got,
          ground (arith, lookup-remove_line line line c.cb whole),
          ground (arith, contains-remove_all line line c.writeable),
        )

    -- Where the line that a cache asks to write has an owner at a port whose last snoop is withdrawn,
    -- and a third cache shares it, the same steps bring the cache that asked what happened to lie in the
    -- owner's snoop buffer, whatever the owner's cache held.
    pub readu-stale :
        (c : L1)
        → third s.shared idx ≡ true
        → (d : L1) × (t u : Llc) × (exchange s.owner c (asked idx r) ≡ some (d, t))
          × (two_cycles first t ≡ some u)
          × ((port_at idx u).req_line_buf ≡ (port_at s.owner r).snoop_line_buf)
    readu-stale c shared =
        let p = port_at s.owner (asked idx r) in
        let (snoop, at_line, kept) = asked-snoop in
        let (d, step) = snooped-inval c p (ground arith) in
        let q = record p { snoop = Snoop.idle } in
        let (u, run, got) = delivered q in
        (
          d,
          put_port s.owner q (asked idx r),
          u,
          exchange_lem s.owner c (asked idx r) step,
          run,
          got ∙ kept,
        )
