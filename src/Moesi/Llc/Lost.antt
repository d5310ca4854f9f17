-- ===== src/Moesi/Llc/Lost.antt =====
-- A dirty line that is put back by a cache that does not own it any more.
use nullrvsim.Prelude.{ℕ, ◌≡◌, ◌≢◌, false, some, [], ◌∷◌, ◌++◌, arith}
use nullrvsim.Prelude.Sets.{remove_all}
use nullrvsim.Cache.Lookup.{lookup}
use nullrvsim.Cache.Whole.{get_line-lookup}
use nullrvsim.Bus.Mapping.{BusPortMapping}
use nullrvsim.Moesi.Codes.MsgType
use nullrvsim.Moesi.Codes.Channel
use nullrvsim.Moesi.Message.{construct_msg_pack}
use nullrvsim.Moesi.L1.{Ready}
use nullrvsim.Moesi.Llc.{Llc, Package, DirEntry, lindex_to_nuca_tag}
use nullrvsim.Moesi.Llc.Puts.{first_or, index_put_dirty}

-- The acknowledgement of a put.
abbrev pub put_ack : Package → Ready
put_ack pak = record {
  msg =
      construct_msg_pack
        (record { type_ = MsgType.put_ack; arg = 0; transid = 0; line = pak.lindex; data_ = [] });
  dst = pak.arg;
  cha = Channel.ack;
}

module _ (busmap : BusPortMapping) where
  -- A put of a dirty line by a cache that is not the owner changes neither the block nor the directory,
  -- and is acknowledged and nothing else, but its package makes the least of the caches that are left the
  -- owner, whoever it was.
  put_stranger :
      (pak : Package) (r : Llc) (l1 : ℕ) (e : DirEntry) {q : Package} {s : Llc}
      → busmap.get_reqnode_index pak.arg ≡ some l1
      → lookup r.directory (lindex_to_nuca_tag pak.lindex r) ≡ some e
      → e.owner ≢ l1
      → index_put_dirty busmap pak r ≡ some (q, s)
      → (q.entry.owner ≡ first_or e.owner (remove_all l1 e.exists))
        × (s ≡ r)
        × (q.need_send ≡ pak.need_send ++ put_ack pak ∷ [])
  unfolding index_put_dirty
  put_stranger pak r l1 e known found other run =
      ground (arith, get_line-lookup (lindex_to_nuca_tag pak.lindex r) false r.directory)

  -- The owner's line is lost: after a put by a cache that is not the owner, when another cache than the
  -- owner is the least of those left, the owner's own put leaves the node as it is, its line not in the
  -- block, and all that is sent is the acknowledgement, so that nothing goes to memory, whatever happens
  -- between the two as long as the directory has what the first put left.
  pub put_dirty-lost :
      (stale put : Package) (r t : Llc) (stranger : ℕ) (e : DirEntry) {q q' : Package} {s s' : Llc}
      → busmap.get_reqnode_index stale.arg ≡ some stranger
      → lookup r.directory (lindex_to_nuca_tag stale.lindex r) ≡ some e
      → e.owner ≢ stranger
      → first_or e.owner (remove_all stranger e.exists) ≢ e.owner
      → index_put_dirty busmap stale r ≡ some (q, s)
      → busmap.get_reqnode_index put.arg ≡ some e.owner
      → lookup t.directory (lindex_to_nuca_tag put.lindex t) ≡ some q.entry
      → index_put_dirty busmap put t ≡ some (q', s')
      → (s' ≡ t) × (q'.need_send ≡ put.need_send ++ put_ack put ∷ [])
  put_dirty-lost stale put r t stranger e known found other least run asks left run' =
      let (owner, same, sent) =
        put_stranger put t e.owner _ asks left
          (ground (arith, put_stranger stale r stranger e known found other run)) run' in
      (same, sent)
