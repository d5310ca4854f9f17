-- ===== src/Moesi/L1/Keeping.antt =====
-- load and store of src/cache/moesi/l1cachev2.cpp: in which of the block and the miss registers they
-- leave a line.
use nullrvsim.Prelude.{
  ℕ, ◌≡◌, Bool, true, Option, none, some, List, arith, Option-cases, Bool-cases, inl, inr, ◌%◌,
  ◌==◌, subst, ◌||◌,
}
use nullrvsim.Prelude.Assoc.{find-erase, find, insert, erase}
use nullrvsim.SimError.{SimError}
use nullrvsim.Cache.Lru
use nullrvsim.Cache.Mshr
use nullrvsim.Cache.Lookup.{lookup}
use nullrvsim.Moesi.Codes.LineState
use nullrvsim.Moesi.L1.{Cache, Line, addr_to_line_index, remove_line, get_entry}
use nullrvsim.Moesi.L1.Port.{recieve_msg}
use nullrvsim.Moesi.L1.Access.{
  load, load_line, load_miss, store, store_line, store_wait, store_miss, alloc_entry, crosses_line,
  stored, write_hit,
}
use nullrvsim.Moesi.L1.Occupancy.{
  sound_at, IsSeparate, IsSeparate-IsWhole, put_line-lookup, put_line-mshrs, remove_line-lookup,
}

load_line-Separate :
    (lindex offset l2_port len : ℕ) (buf : List ℕ) (valid : List Bool) (r : Cache) {ret : SimError}
    {out : List ℕ} {s : Cache} (k : ℕ)
    → IsSeparate r
    → load_line lindex offset l2_port len buf valid r ≡ (ret, out, s)
    → sound_at k s ≡ true
unfolding load_line load_miss alloc_entry Lru.get_line get_entry Mshr.get Mshr.alloc find insert
    erase
load_line-Separate lindex offset l2_port len buf valid r {ret} {out} {s} k h q =
    ground (arith, h k, find-erase lindex k r.mshrs.hashmap)

-- The order in the set is no part of it.
pub tag-Separate :
    (lindex : ℕ) (r : Cache)
    → IsSeparate r
    → IsSeparate (record r { block = (Lru.get_line lindex true r.block).1 })
unfolding Lru.get_line
tag-Separate lindex r h k = ground (arith, h k)

store_miss-Separate :
    (lindex l2_port : ℕ) (hit : Option Line) (r : Cache) {res : SimError} {s : Cache} (k : ℕ)
    → IsSeparate r
    → lookup r.block lindex ≡ hit
    → store_miss lindex l2_port hit r ≡ some (res, s)
    → sound_at k s ≡ true
unfolding store_miss alloc_entry remove_line Mshr.alloc find insert erase
store_miss-Separate lindex l2_port hit r {res} {s} k h e q = ground (
  arith,
  h k,
  find-erase lindex k r.mshrs.hashmap,
  find-erase lindex k (erase lindex r.mshrs.hashmap),
  remove_line-lookup lindex k r.block (IsSeparate-IsWhole r h),
)

-- May a store write the line at once?
abbrev pub writable : Line → Bool
writable p = p.state == LineState.exclusive || p.state == LineState.modified

store_wait-Separate :
    (lindex l2_port : ℕ) (hit : Option Line) (r : Cache) {res : SimError} {s : Cache} (k : ℕ)
    → IsSeparate r
    → lookup r.block lindex ≡ hit
    → store_wait lindex l2_port hit r ≡ some (res, s)
    → sound_at k s ≡ true
unfolding store_wait
store_wait-Separate lindex l2_port hit r {res} {s} k h e q =
    elim (Option-cases (get_entry lindex r)) [
      | inl free ↦ store_miss-Separate lindex l2_port hit r {res = res} {s = s} k h e (ground arith)
      | inr (entry, there) ↦ ground (arith, h k)
    ]

pub recieve_msg-Separate :
    (ports : List (Option (List ℕ))) (r : Cache) → IsSeparate r → IsSeparate (recieve_msg ports r)
unfolding recieve_msg
recieve_msg-Separate ports r h k = ground (arith, h k)

write_hit-Separate :
    (lindex : ℕ) (bytes : List ℕ) (r : Cache) {p : Line} (k : ℕ)
    → IsSeparate r
    → lookup r.block lindex ≡ some p
    → sound_at k (write_hit lindex bytes r) ≡ true
write_hit-Separate lindex bytes r k h e = ground (
  arith,
  h k,
  h lindex,
  put_line-lookup lindex k (record { bytes = bytes; state = LineState.modified }) r h,
  put_line-mshrs lindex (record { bytes = bytes; state = LineState.modified }) r,
)

store_line-Separate :
    (lindex offset l2_port len : ℕ) (buf : List ℕ) (valid : List Bool) (r : Cache) {res : SimError}
    {s : Cache} (k : ℕ)
    → IsSeparate r
    → store_line lindex offset l2_port len buf valid r ≡ some (res, s)
    → sound_at k s ≡ true
unfolding store_line Lru.get_line
store_line-Separate lindex offset l2_port len buf valid r {res} {s} k h q =
    let tagged : Cache = record r { block = (Lru.get_line lindex true r.block).1 } in
    let kept = tag-Separate lindex r h in
    elim (Option-cases (lookup r.block lindex)) [
      | inl n ↦
          store_wait-Separate lindex l2_port none tagged {res = res} {s = s} k kept (ground arith)
            (ground arith)
      | inr (p, hit) ↦ elim (Bool-cases (writable p)) [
        | inr held ↦
            store_wait-Separate lindex l2_port (some p) tagged {res = res} {s = s} k kept
              (ground arith) (ground arith)
        | inl owned ↦
            let bytes = stored offset len buf valid p.bytes in
            let done : write_hit lindex bytes tagged ≡ s = ground arith in
            subst (λ x. sound_at k x ≡ true) done
              (write_hit-Separate lindex bytes tagged {p = p} k kept (ground arith))
      ]
    ]

module _ (home : ℕ → Option ℕ) (ports : List (Option (List ℕ))) where
  load-IsSeparate :
      (paddr len : ℕ) (buf : List ℕ) (valid : List Bool) (r : Cache) {ret : SimError} {out : List ℕ}
      {s : Cache}
      → IsSeparate r
      → load home ports paddr len buf valid r ≡ (ret, out, s)
      → IsSeparate s
  unfolding load
  load-IsSeparate paddr len buf valid r {ret} {out} {s} h q k =
      elim (Bool-cases (crosses_line paddr len)) [
        | inl c ↦ ground (arith, h k)
        | inr c ↦ elim (Option-cases (home (addr_to_line_index paddr))) [
          | inl n ↦ ground (arith, h k)
          | inr (port, e) ↦
              load_line-Separate (addr_to_line_index paddr) (paddr % 64) port len buf valid
                (recieve_msg ports r) {ret = ret} {out = out} {s = s} k
                (recieve_msg-Separate ports r h) (ground arith)
        ]
      ]

  pub store-IsSeparate :
      (paddr len : ℕ) (buf : List ℕ) (valid : List Bool) (r : Cache) {res : SimError} {s : Cache}
      → IsSeparate r
      → store home ports paddr len buf valid r ≡ some (res, s)
      → IsSeparate s
  unfolding store
  store-IsSeparate paddr len buf valid r {res} {s} h q k =
      elim (Bool-cases (crosses_line paddr len)) [
        | inl c ↦ ground (arith, h k)
        | inr c ↦ elim (Option-cases (home (addr_to_line_index paddr))) [
          | inl n ↦ ground (arith, h k)
          | inr (port, e) ↦
              store_line-Separate (addr_to_line_index paddr) (paddr % 64) port len buf valid
                (recieve_msg ports r) {res = res} {s = s} k (recieve_msg-Separate ports r h)
                (ground arith)
        ]
      ]

-- A load and a store, whatever they return and whatever message they take from the bus, keep every
-- line from being both in the block and in a miss register.
pub accesses-IsSeparate :
    (home : ℕ → Option ℕ) (ports : List (Option (List ℕ))) (paddr len : ℕ) (buf : List ℕ)
    (valid : List Bool) (r : Cache) {ret res : SimError} {out : List ℕ} {s t : Cache}
    → IsSeparate r
    → load home ports paddr len buf valid r ≡ (ret, out, s)
    → store home ports paddr len buf valid r ≡ some (res, t)
    → IsSeparate s × IsSeparate t
accesses-IsSeparate home ports paddr len buf valid r h p q = (
  load-IsSeparate home ports paddr len buf valid r h p,
  store-IsSeparate home ports paddr len buf valid r h q,
)
