-- ===== src/Moesi/L1/Placing.antt =====
-- The messages on a line that the cache has or gives back, and handle_new_line_nolock
-- (src/cache/moesi/l1cachev2.cpp): in which of the block and the miss registers they leave a line.
use nullrvsim.Prelude.{
  ℕ, ◌≡◌, true, Option, none, some, arith, Option-cases, inl, inr, ◌==◌, [], ◌∷◌, ◌++◌,
}
use nullrvsim.Prelude.Assoc.{find-assign, find-erase, find, insert, erase}
use nullrvsim.Cache.Lru
use nullrvsim.Cache.Mshr
use nullrvsim.Cache.Lookup.{lookup}
use nullrvsim.Cache.Replace.{insert_line-replaced}
use nullrvsim.Moesi.Codes.LineState
use nullrvsim.Moesi.L1.{Cache, Line, Entry, put_line, remove_line, get_line, get_entry}
use nullrvsim.Moesi.L1.Forward.{
  remove_entry, handle_invalid, handle_gets_forward, handle_getm_forward, handle_put_ack,
}
use nullrvsim.Moesi.L1.Install.{evict, handle_new_line, install}
use nullrvsim.Moesi.L1.Occupancy.{
  sound_at, sound_after, IsSeparate, IsSeparate-IsWhole, put_line-lookup, remove_line-lookup,
  insert_line-lookup,
}

pub handle_invalid-Separate :
    (lindex arg : ℕ) (r : Cache) (k : ℕ)
    → IsSeparate r
    → sound_after k r (handle_invalid lindex arg r) ≡ true
unfolding handle_invalid get_entry remove_line
handle_invalid-Separate lindex arg r k h = grind (
  arith,
  h k,
  h lindex,
  remove_line-lookup lindex k r.block (IsSeparate-IsWhole r h),
  find-assign,
)

pub handle_gets_forward-Separate :
    (lindex arg : ℕ) (r : Cache) (k : ℕ)
    → IsSeparate r
    → sound_after k r (handle_gets_forward lindex arg r) ≡ true
unfolding handle_gets_forward get_entry get_line put_line Lru.get_line
handle_gets_forward-Separate lindex arg r k h = elim (Option-cases (lookup r.block lindex)) [
  | inl n ↦ grind (arith, h k, h lindex, find-assign)
  | inr (p, q) ↦
      ground
        (arith, h k, h lindex, put_line-lookup lindex k (record p { state = LineState.owned }) r h)
]

pub handle_getm_forward-Separate :
    (lindex arg : ℕ) (r : Cache) (k : ℕ)
    → IsSeparate r
    → sound_after k r (handle_getm_forward lindex arg r) ≡ true
unfolding handle_getm_forward get_entry get_line remove_line Lru.get_line
handle_getm_forward-Separate lindex arg r k h = grind (
  arith,
  h k,
  h lindex,
  remove_line-lookup lindex k r.block (IsSeparate-IsWhole r h),
  find-assign,
)

pub handle_put_ack-Separate :
    (lindex : ℕ) (r : Cache) (k : ℕ)
    → IsSeparate r
    → sound_after k r (handle_put_ack lindex r) ≡ true
unfolding handle_put_ack get_entry remove_entry Mshr.remove
handle_put_ack-Separate lindex r k h = grind (arith, h k, find-erase)

-- The replaced line is another one, which had no entry, so it may get one.
evict-Separate :
    (home : ℕ → Option ℕ) (v : ℕ) (p : Line) (r : Cache) {s : Cache} (k : ℕ)
    → sound_at k r ≡ true
    → lookup r.block v ≡ none
    → evict home v p r ≡ some s
    → sound_at k s ≡ true
unfolding evict Mshr.alloc find insert erase
evict-Separate home v p r {s} k h n q = ground (arith, find-erase v k r.mshrs.hashmap)

-- The block and the registers once the line is in the block.
abbrev placed : ℕ → Entry → ℕ → Lru.Block Line → Cache → Cache
placed lindex e state block r = remove_entry lindex (record r {
  block = block;
  newlines =
      r.newlines
      ++ record { lindex = lindex; readonly = state == LineState.shared; bytes = e.line_buf } ∷ [];
})

handle_new_line-Separate :
    (home : ℕ → Option ℕ) (lindex : ℕ) (e : Entry) (state : ℕ) (r : Cache) {s : Cache} (k : ℕ)
    → IsSeparate r
    → handle_new_line home lindex e state r ≡ some s
    → sound_at k s ≡ true
unfolding handle_new_line remove_entry Mshr.remove
handle_new_line-Separate home lindex e state r {s} k h q =
    let p : Line = record { bytes = e.line_buf; state = state } in
    let whole = IsSeparate-IsWhole r h in
    elim (Option-cases (home lindex)) [
      | inl n ↦ absurd (ground arith)
      | inr (port, a) ↦ elim (Option-cases (Lru.insert_line lindex p r.block)) [
        | inl n ↦ absurd (ground arith)
        | inr ((none, block), b) ↦ ground (
          arith,
          h k,
          insert_line-lookup lindex k p r.block whole b,
          find-erase lindex k r.mshrs.hashmap,
        )
        | inr ((some (v, o), block), b) ↦
            evict-Separate home v o (placed lindex e state block r) {s = s} k
              (ground (
                arith,
                h k,
                insert_line-lookup lindex k p r.block whole b,
                find-erase lindex k r.mshrs.hashmap,
              ))
              (ground (
                arith,
                insert_line-lookup lindex v p r.block whole b,
                insert_line-replaced lindex p r.block b,
              ))
              (ground arith)
      ]
    ]

pub install-Separate :
    (home : ℕ → Option ℕ) (lindex : ℕ) (e : Entry) (state : ℕ) (r : Cache) (k : ℕ)
    → IsSeparate r
    → sound_after k r (install home lindex e state r) ≡ true
unfolding install
install-Separate home lindex e state r k h =
    elim (Option-cases (handle_new_line home lindex e state r)) [
      | inl n ↦ ground arith
      | inr (s, q) ↦ ground (arith, handle_new_line-Separate home lindex e state r k h q)
    ]
