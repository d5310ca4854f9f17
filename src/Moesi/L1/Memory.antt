-- ===== src/Moesi/L1/Memory.antt =====
-- load and store of src/cache/moesi/l1cachev2.cpp as reads and writes of memory.
use nullrvsim.Prelude.{
  take-all, take-append_exact, ℕ, zero, suc, ◌+◌, ◌%◌, ◌<◌, ◌≤◌, ◌≡◌, ◌≢◌, refl, ap, ◌∙◌, subst,
  Bool, true, false, ◌==◌, if◌then◌else◌, Option, none, some, List, [], ◌∷◌, ◌++◌, length, take,
  drop, arith, Option-cases, Bool-cases, inl, inr,
}
use nullrvsim.SimError.{success}
use nullrvsim.Cache.Lru
use nullrvsim.Cache.Lookup.{lookup}
use nullrvsim.Moesi.Codes.LineState
use nullrvsim.Moesi.L1.{Cache, Line, addr_to_line_index}
use nullrvsim.Moesi.L1.Port.{recieve_msg}
use nullrvsim.Moesi.L1.Access.{
  load, load_line, store, store_line, store_wait, store_miss, alloc_entry, crosses_line, stored,
  loaded, read_bytes, write_bytes, write_hit,
}
use nullrvsim.Moesi.L1.Occupancy.{IsSeparate, put_line-lookup}
use nullrvsim.Moesi.L1.Keeping.{writable, recieve_msg-Separate, tag-Separate}

drop-append :
    (offset : ℕ) (bytes rest : List ℕ)
    → offset ≤ length bytes
    → drop offset (take offset bytes ++ rest) ≡ rest
drop-append zero bytes rest h = refl
drop-append (suc offset) [] rest h = absurd (omega arith)
drop-append (suc offset) (b ∷ bytes) rest h = drop-append offset bytes rest (omega arith)

-- The bytes just written are the ones that are read.
pub read_bytes-write_bytes :
    (offset : ℕ) (new bytes : List ℕ)
    → offset ≤ length bytes
    → read_bytes offset (length new) (write_bytes offset new bytes) ≡ new
read_bytes-write_bytes offset new bytes h =
    ap (take (length new)) (drop-append offset bytes (new ++ drop (offset + length new) bytes) h)
    ∙ take-append_exact new (drop (offset + length new) bytes) (length new) refl

store_wait-success :
    (lindex l2_port : ℕ) (hit : Option Line) (r s : Cache)
    → store_wait lindex l2_port hit r ≢ some (success, s)
unfolding store_wait store_miss alloc_entry
store_wait-success lindex l2_port hit r s q = ground arith

-- What every line of the block is after a store that succeeded.
store_line-success :
    (lindex offset l2_port len : ℕ) (buf : List ℕ) (valid : List Bool) (r : Cache) {s : Cache}
    (k : ℕ)
    → IsSeparate r
    → store_line lindex offset l2_port len buf valid r ≡ some (success, s)
    → (p : Line) × (lookup r.block lindex ≡ some p)
      × (writable p ≡ true)
      × (lookup s.block k ≡ (
          if k == lindex
          then some
              (record { bytes = stored offset len buf valid p.bytes; state = LineState.modified })
          else lookup r.block k))
unfolding store_line Lru.get_line
store_line-success lindex offset l2_port len buf valid r {s} k h q =
    let tagged : Cache = record r { block = (Lru.get_line lindex true r.block).1 } in
    let kept = tag-Separate lindex r h in
    elim (Option-cases (lookup r.block lindex)) [
      | inl n ↦ absurd (store_wait-success lindex l2_port none tagged s (ground arith))
      | inr (p, hit) ↦ elim (Bool-cases (writable p)) [
        | inr held ↦ absurd (store_wait-success lindex l2_port (some p) tagged s (ground arith))
        | inl owned ↦
            let p' : Line = record {
              bytes = stored offset len buf valid p.bytes;
              state = LineState.modified;
            } in
            let done : write_hit lindex p'.bytes tagged ≡ s = ground arith in
            (
              p,
              hit,
              owned,
              subst (λ x. lookup x.block k ≡ (if k == lindex then some p' else lookup r.block k))
                  done (ground (arith, put_line-lookup lindex k p' tagged kept)),
            )
      ]
    ]

recieve_msg-block :
    (ports : List (Option (List ℕ))) (r : Cache) → (recieve_msg ports r).block ≡ r.block
unfolding recieve_msg
recieve_msg-block ports r = ground arith

module _ (home : ℕ → Option ℕ) (ports : List (Option (List ℕ))) where
  store-port :
      (paddr len : ℕ) (buf : List ℕ) (valid : List Bool) (r : Cache) {s : Cache}
      → store home ports paddr len buf valid r ≡ some (success, s)
      → (port : ℕ) × (crosses_line paddr len ≡ false)
        × (home (addr_to_line_index paddr) ≡ some port)
  unfolding store
  store-port paddr len buf valid r q = elim (Bool-cases (crosses_line paddr len)) [
    | inl c ↦ absurd (ground arith)
    | inr c ↦ elim (Option-cases (home (addr_to_line_index paddr))) [
      | inl n ↦ absurd (ground arith)
      | inr (port, e) ↦ (port, c, e)
    ]
  ]

  -- After a store that succeeded, on a cache in which no line was both in the block and in a miss register,
  -- the line was in the block, exclusive or modified; it is modified now and has the stored bytes; and
  -- every other line of the block is as it was.
  pub store-success :
      (paddr len : ℕ) (buf : List ℕ) (valid : List Bool) (r : Cache) {s : Cache} (k : ℕ)
      → IsSeparate r
      → store home ports paddr len buf valid r ≡ some (success, s)
      → (p : Line) × (lookup r.block (addr_to_line_index paddr) ≡ some p)
        × (writable p ≡ true)
        × (lookup s.block k ≡ (
            if k == addr_to_line_index paddr
            then some (record {
              bytes = stored (paddr % 64) len buf valid p.bytes;
              state = LineState.modified;
            })
            else lookup r.block k))
  unfolding store recieve_msg
  store-success paddr len buf valid r {s} k h q = elim (Bool-cases (crosses_line paddr len)) [
    | inl c ↦ absurd (ground arith)
    | inr c ↦ elim (Option-cases (home (addr_to_line_index paddr))) [
      | inl n ↦ absurd (ground arith)
      | inr (port, e) ↦
          let (p, hit, owned, after) =
            store_line-success (addr_to_line_index paddr) (paddr % 64) port len buf valid
              (recieve_msg ports r) {s = s} k (recieve_msg-Separate ports r h) (ground arith) in
          let same = recieve_msg-block ports r in
          (
            p,
            subst (λ c. lookup c (addr_to_line_index paddr) ≡ some p) same hit,
            owned,
            ground (arith, same),
          )
    ]
  ]

  -- What a load finds in the block it returns.
  load-hit :
      (paddr len : ℕ) (out : List ℕ) (r : Cache) (p : Line)
      → crosses_line paddr len ≡ false
      → (port : ℕ) → home (addr_to_line_index paddr) ≡ some port
      → lookup r.block (addr_to_line_index paddr) ≡ some p
      → ((load home ports paddr len out [] r).0 ≡ success)
        × ((load home ports paddr len out [] r).1 ≡ loaded (paddr % 64) len out [] p.bytes)
  unfolding load load_line Lru.get_line
  load-hit paddr len out r p c port e hit = ground (arith, recieve_msg-block ports r)

module _ (home : ℕ → Option ℕ) (ports ports' : List (Option (List ℕ))) where
  -- A load of the bytes, at least one, that a store just wrote succeeds and returns them, whatever the bus
  -- delivers in between, when the lines of the block are of full length and, before the store, none was
  -- both in the block and in a miss register.
  pub load-store :
      (paddr : ℕ) (buf out : List ℕ) (r : Cache) {s : Cache}
      → IsSeparate r
      → ((k : ℕ) (p : Line) → lookup r.block k ≡ some p → length p.bytes ≡ 64)
      → 0 < length buf
      → store home ports paddr (length buf) buf [] r ≡ some (success, s)
      → ((load home ports' paddr (length buf) out [] s).0 ≡ success)
        × ((load home ports' paddr (length buf) out [] s).1 ≡ buf)
  load-store paddr buf out r {s} h full n q =
      let l = addr_to_line_index paddr in
      let (p, hit, owned, after) =
        store-success home ports paddr (length buf) buf [] r {s = s} l h q in
      let bytes = write_bytes (paddr % 64) buf p.bytes in
      let there : lookup s.block l ≡ some (record { bytes = bytes; state = LineState.modified }) =
        ground (arith, take-all (length buf) buf (omega arith)) in
      let (port, whole, e) = store-port home ports paddr (length buf) buf [] r q in
      let (ret, read) =
        load-hit home ports' paddr (length buf) out s
          (record { bytes = bytes; state = LineState.modified }) whole port e there in
      (
        ret,
        read
            ∙ (ground (
              arith,
              read_bytes-write_bytes (paddr % 64) buf p.bytes (omega (arith, full l p hit)),
            )),
      )
