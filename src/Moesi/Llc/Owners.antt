-- ===== src/Moesi/Llc/Owners.antt =====
-- The owner of a line in the directory is one of the caches that have it.
use nullrvsim.Prelude.{
  ℕ, ◌<◌, ◌≡◌, refl, Bool, true, false, ◌||◌, Option, none, some, Option-cases, inl, inr, List, [],
  ◌∷◌, length, arith,
}
use nullrvsim.Prelude.Sets.{contains, contains-insert_sorted, contains-remove_all}
use nullrvsim.Cache.Lru
use nullrvsim.Cache.Lru.{Block, set_index}
use nullrvsim.Cache.Lookup.{lookup, IsWhole}
use nullrvsim.Cache.Replace.{lookup-insert_line, lookup-remove_line}
use nullrvsim.Cache.Whole.{remove_line-IsWhole, insert_line-IsWhole, get_line-lookup}
use nullrvsim.Bus.Mapping.{BusPortMapping}
use nullrvsim.Moesi.Llc.{Llc, Package, DirEntry, lindex_to_nuca_tag, nuca_tag_to_lindex}
use nullrvsim.Moesi.Llc.Index.{
  sole, look_up, index_absent, index_gets_held, index_getm_held, index_gets, index_getm,
}
use nullrvsim.Moesi.Llc.Puts.{
  first_or, is_empty, index_put_clean, replace, take_line, index_put_dirty,
}
use nullrvsim.Moesi.Llc.Stage.{commit, index}

abbrev pub owned : DirEntry → Bool
owned e = contains e.owner e.exists

abbrev pub owned_at : Option DirEntry → Bool
owned_at none = true
owned_at (some e) = owned e

-- Every line has a set of the directory to be in, and the owner in every entry has the line.
abbrev pub IsSound : Block DirEntry → Type 0
IsSound c = (k : ℕ) → (set_index c k < length c.sets) × (owned_at (lookup c k) ≡ true)

-- What a package is to leave in the directory: nothing, or an entry whose owner has the line.
abbrev pub proper : Package → Bool
proper pak = pak.dir_evict || owned pak.entry

IsSound-IsWhole : (c : Block DirEntry) → IsSound c → IsWhole c
IsSound-IsWhole c h k = (h k).0

remove_line-IsSound : (tag : ℕ) (c : Block DirEntry) → IsSound c → IsSound (Lru.remove_line tag c)
remove_line-IsSound tag c h k = (
  remove_line-IsWhole tag c (IsSound-IsWhole c h) k,
  ground (arith, h k, lookup-remove_line tag k c (IsSound-IsWhole c h)),
)

sole-owned : (l1 : ℕ) → owned (sole l1) ≡ true
sole-owned l1 = ground (arith, contains-insert_sorted l1 l1 [])

first_or-contains : (owner : ℕ) (l : List ℕ) → is_empty l || contains (first_or owner l) l ≡ true
unfolding contains
first_or-contains owner [] = refl
first_or-contains owner (l1 ∷ rest) = ground arith

look_up-owned :
    (r : Llc) (pak : Package)
    → IsSound r.directory
    → (look_up r pak).dir_hit ≡ true
    → owned (look_up r pak).entry ≡ true
look_up-owned r pak h hit =
    let tag = lindex_to_nuca_tag pak.lindex r in
    ground (arith, h tag, get_line-lookup tag false r.directory)

module _ (busmap : BusPortMapping) where
  absent-proper :
      (forward resp share l1 : ℕ) (line : Option (List ℕ)) (pak : Package) {q : Package}
      → index_absent busmap forward resp share l1 line pak ≡ some q
      → owned q.entry ≡ true
  unfolding index_absent
  absent-proper forward resp share l1 line pak e = ground (arith, sole-owned l1)

  gets_held-proper :
      (l1 : ℕ) (pak : Package) {q : Package}
      → index_gets_held busmap l1 pak ≡ some q
      → owned q.entry ≡ true
  unfolding index_gets_held
  gets_held-proper l1 pak e =
      ground (arith, contains-insert_sorted l1 pak.entry.owner pak.entry.exists)

  getm_held-proper :
      (l1 : ℕ) (pak : Package) {q : Package}
      → index_getm_held busmap l1 pak ≡ some q
      → owned q.entry ≡ true
  unfolding index_getm_held
  getm_held-proper l1 pak e = ground (arith, sole-owned l1)

  put_clean-proper :
      (pak : Package) (r : Llc) {q : Package} {s : Llc}
      → IsSound r.directory
      → index_put_clean busmap pak r ≡ some (q, s)
      → (proper q ≡ true) × (s.directory ≡ r.directory)
  unfolding index_put_clean
  put_clean-proper pak r h e =
      grind (arith, look_up-owned r pak h, first_or-contains, contains-remove_all)

  gets-proper :
      (pak : Package) (r : Llc) {q : Package} {s : Llc}
      → index_gets busmap pak r ≡ some (q, s)
      → (owned q.entry ≡ true) × (s.directory ≡ r.directory)
  unfolding index_gets
  gets-proper pak r e = grind (arith, gets_held-proper, absent-proper)

  getm-proper :
      (pak : Package) (r : Llc) {q : Package} {s : Llc}
      → index_getm busmap pak r ≡ some (q, s)
      → (owned q.entry ≡ true) × (s.directory ≡ r.directory)
  unfolding index_getm
  getm-proper pak r e = grind (arith, getm_held-proper, absent-proper)

  replace-IsSound :
      (tag : ℕ) (bytes : List ℕ) (pak : Package) (r : Llc) {q : Package} {s : Llc}
      → IsSound r.directory
      → replace busmap tag bytes pak r ≡ some (q, s)
      → IsSound s.directory
  unfolding replace
  replace-IsSound tag bytes pak r h e k = ground (
    arith,
    h k,
    remove_line-IsSound (lindex_to_nuca_tag (nuca_tag_to_lindex tag r) r) r.directory h k,
  )

  take_line-IsSound :
      (pak : Package) (r : Llc) {q : Package} {s : Llc}
      → IsSound r.directory
      → take_line busmap pak r ≡ some (q, s)
      → IsSound s.directory
  unfolding take_line
  take_line-IsSound pak r {q} {s} h e k =
      elim (Option-cases (Lru.insert_line (lindex_to_nuca_tag pak.lindex r) pak.line_buf r.block)) [
        | inl n ↦ absurd (ground arith)
        | inr ((none, block), i) ↦ ground (arith, h k)
        | inr ((some (tag, bytes), block), i) ↦
            replace-IsSound tag bytes pak (record r { block = block }) {q = q} {s = s} h
              (ground arith) k
      ]

  put_dirty-proper :
      (pak : Package) (r : Llc) {q : Package} {s : Llc}
      → IsSound r.directory
      → index_put_dirty busmap pak r ≡ some (q, s)
      → (proper q ≡ true) × IsSound s.directory
  unfolding index_put_dirty
  put_dirty-proper pak r h e =
      (grind (arith, first_or-contains), λ k. grind (arith, h k, take_line-IsSound))

  -- A request that is indexed leaves the directory with owners that have their lines, and its package
  -- with an entry like that, or with none to leave.
  pub index-IsSound :
      (pak : Package) (r : Llc) {q : Package} {s : Llc}
      → IsSound r.directory
      → index busmap pak r ≡ some (q, s)
      → (proper q ≡ true) × IsSound s.directory
  unfolding index
  index-IsSound pak r {q} {s} h e = (
    ground (
      arith,
      gets-proper pak r {q = q} {s = s},
      getm-proper pak r {q = q} {s = s},
      put_clean-proper pak r {q = q} {s = s} h,
      put_dirty-proper pak r {q = q} {s = s} h,
    ),
    λ k. grind (arith, h k, gets-proper, getm-proper, put_clean-proper, put_dirty-proper),
  )

-- A package with an entry whose owner has the line, or with none to leave, keeps the owners of the
-- directory among the caches that have their lines when it is committed.
pub commit-IsSound :
    (wb : Package) (r : Llc) {s : Llc}
    → IsSound r.directory
    → proper wb ≡ true
    → commit wb r ≡ some s
    → IsSound s.directory
unfolding commit
commit-IsSound wb r h p e k =
    let tag = lindex_to_nuca_tag wb.lindex r in
    let whole = IsSound-IsWhole r.directory h in
    elim (Option-cases (Lru.insert_line tag wb.entry r.directory)) [
      | inl n ↦ ground (arith, h k, remove_line-IsSound tag r.directory h k)
      | inr ((replaced, directory), i) ↦ ground (
        arith,
        h k,
        remove_line-IsSound tag r.directory h k,
        insert_line-IsWhole tag wb.entry r.directory whole i k,
        lookup-insert_line tag k wb.entry r.directory whole i,
      )
    ]
