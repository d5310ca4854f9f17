-- ===== src/Moesi/Llc/Index.antt =====
-- The requests MSG_GETS and MSG_GETM in LLCMoesiDirNoi::p2_index: what the node answers, by its block and
-- its directory, and the entry that the directory gets. `none` is a failed assertion.
use nullrvsim.Prelude.{
  ℕ, ◌+◌, Bool, true, false, not, ◌==◌, ◌&&◌, ◌||◌, if◌then◌else◌, Option, none, some, List, [],
  ◌∷◌,
}
use nullrvsim.Prelude.Sets.{contains, insert_sorted}
use nullrvsim.Cache.Lru
use nullrvsim.Bus.Mapping.{BusPortMapping}
use nullrvsim.Moesi.Codes.MsgType
use nullrvsim.Moesi.Codes.Channel
use nullrvsim.Moesi.Llc.{Llc, Package, DirEntry, push_send_buf, lindex_to_nuca_tag}

-- The entry of a line that just the cache `l1` has.
abbrev pub sole : ℕ → DirEntry
sole l1 = record { exists = insert_sorted l1 []; owner = l1; dirty = true }

-- `directory->get_line(...)` into the package, which keeps its entry where there is none.
abbrev pub look_up : Llc → Package → Package
look_up r pak = elim (Lru.get_line (lindex_to_nuca_tag pak.lindex r) false r.directory).0 [
  | none ↦ record pak { dir_hit = false }
  | some entry ↦ record pak { dir_hit = true; entry = entry }
]

abbrev pub opt_then : {A : Type 0} → Option ℕ → (ℕ → Option A) → Option A
opt_then none f = none
opt_then (some n) f = f n

-- A request that goes on to another node: the memory, or the owner.
abbrev pub forward_to : ℕ → ℕ → Package → Package
forward_to dst type_ pak = push_send_buf dst Channel.req type_ pak.lindex pak.arg [] pak.transid pak

-- The part of MSG_GETS and MSG_GETM that reads the block and the directory.
abbrev pub hit_block : Llc → Package → Option (List ℕ) × Llc
hit_block r pak =
    let q = Lru.get_line (lindex_to_nuca_tag pak.lindex r) true r.block in
    (q.0, record r { block = q.1 })

abbrev pub note_hit : Option (List ℕ) → Package → Package
note_hit none pak = record pak { blk_hit = false; blk_replaced = false }
note_hit (some bytes) pak = record pak { blk_hit = true; blk_replaced = false }

abbrev pub with_state : Llc → Option Package → Option (Package × Llc)
with_state r none = none
with_state r (some pak) = some (pak, r)

module _ (busmap : BusPortMapping) where
  -- A line that is nowhere, and one that only the block has.
  unfoldable pub index_absent : ℕ → ℕ → ℕ → ℕ → Option (List ℕ) → Package → Option Package
  index_absent forward resp share l1 line pak = elim line [
    | none ↦ opt_then (busmap.get_subnode_port pak.lindex) (λ (dst : ℕ).
        some (record (forward_to dst forward pak) { entry = sole l1; delay_commit = true }))
    | some bytes ↦
        some
          (record (push_send_buf pak.arg Channel.resp resp pak.lindex share bytes pak.transid pak) {
            entry = sole l1;
          })
  ]

  -- MSG_GETS for a line that first-level caches have: its owner is asked.
  unfoldable pub index_gets_held : ℕ → Package → Option Package
  index_gets_held l1 pak =
      if contains pak.entry.owner pak.entry.exists
      then opt_then (busmap.get_reqnode_port pak.entry.owner) (λ (dst : ℕ).
        some (record (forward_to dst MsgType.gets_forward pak) {
          entry = record pak.entry { exists = insert_sorted l1 pak.entry.exists };
          delay_commit = true;
        }))
      else none

  -- The loop over the caches that have the line: all but the one that asks, and but the owner when the
  -- request was forwarded to it, are told to drop it.
  unfoldable pub invalidate : List ℕ → ℕ → Bool → ℕ → Package → Option (ℕ × Package)
  invalidate [] l1 skip_owner count pak = some (count, pak)
  invalidate (other ∷ rest) l1 skip_owner count pak =
      let later = λ (n : ℕ) (q : Package). invalidate rest l1 skip_owner n q in
      if other == l1 || (skip_owner && other == pak.entry.owner)
      then later count pak
      else opt_then (busmap.get_reqnode_port other) (λ (dst : ℕ).
        later (count + 1)
          (push_send_buf dst Channel.resp MsgType.invalid pak.lindex pak.arg [] pak.transid pak))

  -- MSG_GETM for a line that first-level caches have.
  unfoldable pub index_getm_held : ℕ → Package → Option Package
  index_getm_held l1 pak =
      let skip_owner = not (contains l1 pak.entry.exists) in
      let asked =
        if skip_owner
        then opt_then (busmap.get_reqnode_port pak.entry.owner)
            (λ (dst : ℕ). some (forward_to dst MsgType.getm_forward pak))
        else some pak in
      elim asked [
        | none ↦ none
        | some q ↦ elim (invalidate q.entry.exists l1 skip_owner 0 q) [
          | none ↦ none
          | some (count, t) ↦
              some
                (record (push_send_buf t.arg Channel.resp MsgType.getm_ack t.lindex count []
                  t.transid t) { entry = sole l1; delay_commit = true })
        ]
      ]

  unfoldable pub index_gets : Package → Llc → Option (Package × Llc)
  index_gets pak r =
      let (line, s) = hit_block r pak in
      let seen = look_up s (note_hit line pak) in
      opt_then (busmap.get_reqnode_index pak.arg) (λ (l1 : ℕ).
        if seen.dir_hit
        then with_state s (index_gets_held l1 seen)
        else with_state s (index_absent MsgType.gets_forward MsgType.gets_resp 0 l1 line seen))

  -- A copy in the block is out of date when first-level caches have the line, and goes.
  unfoldable pub index_getm : Package → Llc → Option (Package × Llc)
  index_getm pak r =
      let (line, s) = hit_block r pak in
      let seen = look_up s (note_hit line pak) in
      let purged =
        if seen.blk_hit
        then record s { block = Lru.remove_line (lindex_to_nuca_tag pak.lindex s) s.block }
        else s in
      opt_then (busmap.get_reqnode_index pak.arg) (λ (l1 : ℕ).
        if seen.dir_hit
        then with_state purged (index_getm_held l1 seen)
        else with_state s (index_absent MsgType.getm_forward MsgType.getm_resp 1 l1 line seen))
