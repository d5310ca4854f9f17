-- ===== src/SimpleCc/Owned.antt =====
-- The lines that a first-level cache may write are lines that it holds.
use nullrvsim.Prelude.{
  ℕ, ◌<◌, ◌≡◌, ◌≢◌, true, ◌==◌, if◌then◌else◌, Option, none, some, Option-cases, inl, inr, List,
  length, take, ◌%◌, arith,
}
use nullrvsim.Prelude.Sets.{contains, include, contains-remove_all, contains-include}
use nullrvsim.Cache.Lru
use nullrvsim.Cache.Lru.{set_index}
use nullrvsim.Cache.Lookup.{lookup, IsWhole}
use nullrvsim.Cache.Replace.{lookup-insert_line, lookup-remove_line, lookup-update_line}
use nullrvsim.Cache.Whole.{
  remove_line-IsWhole, get_line-IsWhole, lookup-get_line, get_line-lookup, insert_line-IsWhole,
  update_line-IsWhole,
}
use nullrvsim.Moesi.L1.{addr_to_line_index}
use nullrvsim.Moesi.L1.Access.{write_bytes}
use nullrvsim.SimpleCc.Port.{Bundle, retire_request}
use nullrvsim.SimpleCc.L1.{L1, snooped, fill, answered, on_current_tick, load, store}

-- Every line has a set to be in, and one that may be written is there.
abbrev pub IsOwned : L1 → Type 0
IsOwned c =
    (k : ℕ)
    → (set_index c.cb k < length c.cb.sets) × (contains k c.writeable ≡ true → lookup c.cb k ≢ none)

-- Of the answer of a step.
abbrev pub After : (L1 → Type 0) → Option (L1 × Bundle) → Type 0
After P o = (c : L1) (p : Bundle) → o ≡ some (c, p) → P c

IsOwned-IsWhole : (c : L1) → IsOwned c → IsWhole c.cb
IsOwned-IsWhole c h k = (h k).0

snooped-IsOwned : (c : L1) (p : Bundle) → IsOwned c → After IsOwned (snooped c p)
unfolding snooped
snooped-IsOwned c p h d q e k = ground (
  arith,
  h k,
  contains-remove_all p.snoop_line k c.writeable,
  remove_line-IsWhole p.snoop_line c.cb (IsOwned-IsWhole c h) k,
  lookup-remove_line p.snoop_line k c.cb (IsOwned-IsWhole c h),
)

fill-IsOwned : (c : L1) (p : Bundle) → IsOwned c → After IsOwned (fill c p)
unfolding fill
fill-IsOwned c p h d q e = elim (Option-cases (Lru.insert_line c.wait_line p.req_line_buf c.cb)) [
  | inl n ↦ absurd (ground arith)
  | inr ((none, cb), r) ↦ λ k. ground (
    arith,
    h k,
    contains-include c.wait_line k c.writeable,
    insert_line-IsWhole c.wait_line p.req_line_buf c.cb (IsOwned-IsWhole c h) r k,
    lookup-insert_line c.wait_line k p.req_line_buf c.cb (IsOwned-IsWhole c h) r,
  )
  | inr ((some (v, bytes), cb), r) ↦ λ k. ground (
    arith,
    h k,
    contains-include c.wait_line k c.writeable,
    contains-remove_all v k c.writeable,
    contains-remove_all v k (include c.wait_line c.writeable),
    insert_line-IsWhole c.wait_line p.req_line_buf c.cb (IsOwned-IsWhole c h) r k,
    lookup-insert_line c.wait_line k p.req_line_buf c.cb (IsOwned-IsWhole c h) r,
  )
]

answered-IsOwned : (c : L1) (p : Bundle) → IsOwned c → After IsOwned (answered c p)
unfolding answered
answered-IsOwned c p h d q e k =
    grind (arith, h k, fill-IsOwned c (record p { req_resp = 0 }) h d q)

-- A cycle keeps every line that may be written in the block, whatever snoop and whatever answer come.
pub on_current_tick-IsOwned :
    (c : L1) (p : Bundle) {d : L1} {q : Bundle}
    → IsOwned c
    → on_current_tick c p ≡ some (d, q)
    → IsOwned d
unfolding on_current_tick
on_current_tick-IsOwned c p {d} {q} h e = elim (Option-cases (snooped c (retire_request p))) [
  | inl n ↦ absurd (ground arith)
  | inr ((s, t), r) ↦
      answered-IsOwned s t (snooped-IsOwned c (retire_request p) h s t r) d q (ground arith)
]

load-IsOwned :
    (paddr len : ℕ) (buf : List ℕ) (c : L1) (p : Bundle)
    → IsOwned c
    → IsOwned (load paddr len buf c p).2
unfolding load
load-IsOwned paddr len buf c p h k = ground (
  arith,
  h k,
  get_line-IsWhole (addr_to_line_index paddr) true c.cb (IsOwned-IsWhole c h) k,
  lookup-get_line (addr_to_line_index paddr) k true c.cb,
)

store-IsOwned :
    (paddr len : ℕ) (buf : List ℕ) (c : L1) (p : Bundle)
    → IsOwned c
    → IsOwned (store paddr len buf c p).1
unfolding store
store-IsOwned paddr len buf c p h k =
    let l : ℕ = addr_to_line_index paddr in
    let tagged = (Lru.get_line l true c.cb).1 in
    let whole : IsWhole tagged = get_line-IsWhole l true c.cb (IsOwned-IsWhole c h) in
    let found = get_line-lookup l true c.cb in
    elim (Option-cases (Lru.get_line l true c.cb).0) [
      | inl n ↦ ground (arith, h k, whole k, lookup-get_line l k true c.cb)
      | inr (bytes, e) ↦
          let written : List ℕ =
            if len == 0 then bytes else write_bytes (paddr % 64) (take len buf) bytes in
          ground (
            arith,
            h k,
            whole k,
            found,
            lookup-get_line l k true c.cb,
            lookup-get_line l l true c.cb,
            update_line-IsWhole l written tagged whole k,
            lookup-update_line l k written tagged whole,
          )
    ]

-- A load and a store keep every line that may be written in the block, whatever they return.
pub accesses-IsOwned :
    (paddr len : ℕ) (buf : List ℕ) (c : L1) (p : Bundle)
    → IsOwned c
    → IsOwned (load paddr len buf c p).2 × IsOwned (store paddr len buf c p).1
accesses-IsOwned paddr len buf c p h =
    (load-IsOwned paddr len buf c p h, store-IsOwned paddr len buf c p h)
