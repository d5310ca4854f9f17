-- ===== src/SimpleCc/Memory.antt =====
-- A first-level cache gives back what was stored into it.
use nullrvsim.Prelude.{
  ℕ, ◌%◌, ◌<◌, ◌≡◌, true, ◌==◌, if◌then◌else◌, some, Option-cases, inl, inr, List, length, take,
  take-all, Bool-cases, false, ◌∙◌, arith,
}
use nullrvsim.Prelude.Sets.{contains}
use nullrvsim.SimError.{success}
use nullrvsim.Cache.Lru
use nullrvsim.Cache.Lru.{set_index}
use nullrvsim.Cache.Lookup.{lookup, IsWhole}
use nullrvsim.Cache.Replace.{lookup-update_line}
use nullrvsim.Cache.Whole.{get_line-IsWhole, lookup-get_line, get_line-lookup}
use nullrvsim.Moesi.L1.{addr_to_line_index}
use nullrvsim.Moesi.L1.Access.{read_bytes, write_bytes, crosses_line}
use nullrvsim.Moesi.L1.Memory.{read_bytes-write_bytes}
use nullrvsim.SimpleCc.Codes.Req
use nullrvsim.SimpleCc.Port.{Bundle}
use nullrvsim.SimpleCc.L1.{L1, load, store}

-- What the store leaves in the line.
abbrev pub written : ℕ → ℕ → List ℕ → List ℕ → List ℕ
written paddr len buf bytes =
    if len == 0 then bytes else write_bytes (paddr % 64) (take len buf) bytes

-- A store that succeeds had the line in the block and writeable while the cache waited for nothing. The
-- line holds the stored bytes now, every other line what it held, and the bundle is untouched.
pub store-success :
    (paddr len : ℕ) (buf : List ℕ) (c : L1) (p : Bundle) {d : L1} {q : Bundle}
    → IsWhole c.cb
    → store paddr len buf c p ≡ (success, d, q)
    → (bytes : List ℕ) × (lookup c.cb (addr_to_line_index paddr) ≡ some bytes)
      × (contains (addr_to_line_index paddr) c.writeable ≡ true)
      × (c.waiting ≡ Req.idle)
      × (d.waiting ≡ Req.idle)
      × (q ≡ p)
      × ((k : ℕ)
          → lookup d.cb k ≡ (
              if k == addr_to_line_index paddr
              then some (written paddr len buf bytes)
              else lookup c.cb k))
unfolding store
store-success paddr len buf c p {d} {q} whole e =
    let l : ℕ = addr_to_line_index paddr in
    let tagged = (Lru.get_line l true c.cb).1 in
    let keeps : IsWhole tagged = get_line-IsWhole l true c.cb whole in
    let found = get_line-lookup l true c.cb in
    elim (Option-cases (Lru.get_line l true c.cb).0) [
      | inl n ↦ absurd (ground arith)
      | inr (bytes, f) ↦ (
        bytes,
        ground (arith, found),
        ground arith,
        ground arith,
        ground arith,
        ground arith,
        λ k. ground (
          arith,
          found,
          lookup-get_line l k true c.cb,
          lookup-get_line l l true c.cb,
          lookup-update_line l k (written paddr len buf bytes) tagged keeps,
        ),
      )
    ]

-- A load that the cache answers from its block.
load-hit :
    (paddr len : ℕ) (out : List ℕ) (c : L1) (p : Bundle) (bytes : List ℕ)
    → crosses_line paddr len ≡ false
    → c.waiting ≡ Req.idle
    → lookup c.cb (addr_to_line_index paddr) ≡ some bytes
    → ((load paddr len out c p).0 ≡ success)
      × ((load paddr len out c p).1 ≡ (if len == 0 then out else read_bytes (paddr % 64) len bytes))
unfolding load
load-hit paddr len out c p bytes whole free hit =
    ground (arith, get_line-lookup (addr_to_line_index paddr) true c.cb)

store-whole :
    (paddr len : ℕ) (buf : List ℕ) (c : L1) (p : Bundle) {d : L1} {q : Bundle}
    → store paddr len buf c p ≡ (success, d, q)
    → crosses_line paddr len ≡ false
unfolding store
store-whole paddr len buf c p e = elim (Bool-cases (crosses_line paddr len)) [
  | inl x ↦ absurd (ground arith)
  | inr x ↦ x
]

-- A load of the bytes that a store just wrote succeeds and returns them, when the lines of the block
-- are of full length.
pub load-store_same :
    (paddr : ℕ) (buf out : List ℕ) (c : L1) (p : Bundle) {d : L1} {q : Bundle}
    → IsWhole c.cb
    → ((k : ℕ) (bytes : List ℕ) → lookup c.cb k ≡ some bytes → length bytes ≡ 64)
    → 0 < length buf
    → store paddr (length buf) buf c p ≡ (success, d, q)
    → ((load paddr (length buf) out d q).0 ≡ success) × ((load paddr (length buf) out d q).1 ≡ buf)
load-store_same paddr buf out c p {d} {q} whole full n e =
    let l = addr_to_line_index paddr in
    let (bytes, hit, owned, free, stays, same, after) =
      store-success paddr (length buf) buf c p whole e in
    let bytes' = write_bytes (paddr % 64) buf bytes in
    let there : lookup d.cb l ≡ some bytes' =
      ground (arith, after l, take-all (length buf) buf (omega arith)) in
    let (ret, read) =
      load-hit paddr (length buf) out d q bytes' (store-whole paddr (length buf) buf c p e) stays
        there in
    (
      ret,
      read
          ∙ ground (
            arith,
            read_bytes-write_bytes (paddr % 64) buf bytes (omega (arith, full l bytes hit)),
          ),
    )
