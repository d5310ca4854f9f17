-- ===== src/Moesi/Llc/Puts.antt =====
-- The requests MSG_PUTS, MSG_PUTE, MSG_PUTM and MSG_PUTO in LLCMoesiDirNoi::p2_index: a first-level cache
-- gives a line back. `none` is a failed assertion.
use nullrvsim.Prelude.{
  ℕ, Bool, true, false, not, ◌==◌, if◌then◌else◌, Option, none, some, List, [], ◌∷◌,
}
use nullrvsim.Prelude.Sets.{remove_all}
use nullrvsim.Cache.Lru
use nullrvsim.Bus.Mapping.{BusPortMapping}
use nullrvsim.Moesi.Codes.MsgType
use nullrvsim.Moesi.Codes.Channel
use nullrvsim.Moesi.Llc.{Llc, Package, push_send_buf, lindex_to_nuca_tag, nuca_tag_to_lindex}
use nullrvsim.Moesi.Llc.Index.{look_up, opt_then, with_state}

-- The least of the caches that still have the line, or the owner so far when there is none.
abbrev pub first_or : ℕ → List ℕ → ℕ
first_or owner [] = owner
first_or owner (l1 ∷ rest) = l1

abbrev pub is_empty : List ℕ → Bool
is_empty [] = true
is_empty (l1 ∷ rest) = false

module _ (busmap : BusPortMapping) where
  -- MSG_PUTS and MSG_PUTE.
  unfoldable pub index_put_clean : Package → Llc → Option (Package × Llc)
  index_put_clean pak r = opt_then (busmap.get_reqnode_index pak.arg) (λ (l1 : ℕ).
      let seen = look_up r pak in
      let left = remove_all l1 seen.entry.exists in
      let owner =
        if l1 == seen.entry.owner then first_or seen.entry.owner left else seen.entry.owner in
      let done =
        if seen.dir_hit
        then record seen {
          entry = record seen.entry { exists = left; owner = owner };
          dir_evict = is_empty left;
        }
        else record seen { dir_evict = true } in
      some (push_send_buf pak.arg Channel.ack MsgType.put_ack pak.lindex 0 [] 0 done, r))

  -- The caches that have a replaced line are told to drop it.
  unfoldable pub drop_replaced : List ℕ → ℕ → ℕ → Package → Option Package
  drop_replaced [] line my_port_id pak = some pak
  drop_replaced (other ∷ rest) line my_port_id pak =
      opt_then (busmap.get_reqnode_port other) (λ (dst : ℕ).
        drop_replaced rest line my_port_id
          (push_send_buf dst Channel.resp MsgType.invalid line my_port_id [] 0 pak))

  -- A line that the block replaces goes to memory; an entry that is not dirty goes with it.
  unfoldable pub replace : ℕ → List ℕ → Package → Llc → Option (Package × Llc)
  replace tag bytes pak r =
      let line = nuca_tag_to_lindex tag r in
      let noted = record pak { blk_replaced = true; lindex_replaced = line } in
      let dropped =
        elim (Lru.get_line (lindex_to_nuca_tag line r) false r.directory).0
          as (λ _. Option (Package × Llc)) [
            | none ↦ some (noted, r)
            | some e ↦
                if e.dirty
                then some (noted, r)
                else with_state
                    (record r {
                      directory = Lru.remove_line (lindex_to_nuca_tag line r) r.directory;
                    })
                    (drop_replaced e.exists line r.my_port_id noted)
          ] in
      elim dropped [
        | none ↦ none
        | some (q, s) ↦ opt_then (busmap.get_subnode_port line) (λ (dst : ℕ).
            some (push_send_buf dst Channel.req MsgType.putm line r.my_port_id bytes 0 q, s))
      ]

  -- The owner's line goes into the block.
  unfoldable pub take_line : Package → Llc → Option (Package × Llc)
  take_line pak r = elim (Lru.insert_line (lindex_to_nuca_tag pak.lindex r) pak.line_buf r.block) [
    | none ↦ none
    | some (replaced, block) ↦ elim replaced as (λ _. Option (Package × Llc)) [
      | none ↦ some (record pak { blk_replaced = false }, record r { block = block })
      | some (tag, bytes) ↦ replace tag bytes pak (record r { block = block })
    ]
  ]

  -- MSG_PUTM and MSG_PUTO.
  unfoldable pub index_put_dirty : Package → Llc → Option (Package × Llc)
  index_put_dirty pak r =
      let seen = look_up r pak in
      if not seen.dir_hit
      then none
      else opt_then (busmap.get_reqnode_index pak.arg) (λ (l1 : ℕ).
        let taken = if seen.entry.owner == l1 then take_line seen r else some (seen, r) in
        let left = remove_all l1 seen.entry.exists in
        elim taken [
          | none ↦ none
          | some (q, s) ↦ some (
            record (push_send_buf pak.arg Channel.ack MsgType.put_ack pak.lindex 0 [] 0 q) {
              entry = record {
                exists = left;
                owner = first_or seen.entry.owner left;
                dirty = not (seen.entry.owner == l1);
              };
              dir_evict = is_empty left;
            },
            s,
          )
        ])
