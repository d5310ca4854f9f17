-- ===== src/Moesi/Llc/Tests.antt =====
-- A node of the last-level cache with three first-level caches, and the theorems at it.
use nullrvsim.Prelude.{
  ltb, if◌then◌else◌, ℕ, ◌+◌, ◌-◌, ◌≡◌, refl, true, Option, none, some, List, [], ◌∷◌, arith,
}
use nullrvsim.Prelude.Bits.{bit_and-mask}
use nullrvsim.Prelude.Assoc.{find, erase}
use nullrvsim.Prelude.Sets
use nullrvsim.Prelude.Sets.{contains}
use nullrvsim.Cache.Lru
use nullrvsim.Cache.Lru.{Block, repeat}
use nullrvsim.TickQueue
use nullrvsim.TickQueue.{Queue}
use nullrvsim.Bus.Mapping.{BusPortMapping}
use nullrvsim.Moesi.Codes.MsgType
use nullrvsim.Moesi.Message.{construct_msg_pack, parse_msg_pack, le_bytes, le_value}
use nullrvsim.Moesi.L1.{Ready}
use nullrvsim.Moesi.L1.Port.{first_packet}
use nullrvsim.Moesi.Llc.{Llc, Package, DirEntry, fresh}
use nullrvsim.Moesi.Llc.Fetch.{accept, receive, make_package, next_request, start, p1_fetch}
use nullrvsim.Moesi.Llc.Index.{sole, invalidate, index_getm_held, index_getm}
use nullrvsim.Moesi.Llc.Puts.{index_put_dirty}
use nullrvsim.Moesi.Llc.Stage.{commit, index, index_next, p2_index}
use nullrvsim.Moesi.Llc.Process.{
  send_all, finished, take_result, retire, p3_process, on_current_tick,
}
use nullrvsim.Moesi.Llc.Owners.{IsSound, proper, index-IsSound, commit-IsSound}
use nullrvsim.Moesi.Llc.Invalidations.{getm_messages, index_getm_held_lem}
use nullrvsim.Moesi.Llc.Lost.{put_ack, put_dirty-lost}
use nullrvsim.Moesi.Llc.Room.{Fits, on_current_tick-Fits}

abbrev busmap : BusPortMapping
busmap = record {
  get_homenode_port = λ k. some 1;
  get_subnode_port = λ k. some 2;
  get_reqnode_port = λ k. some (k + 10);
  get_reqnode_index = λ k. some (k - 10);
}

abbrev queue : Queue Package
queue = record {
  iwid = 1;
  owid = 1;
  qsize = 0;
  len = 16;
  bottom = 0;
  q_bottom = 0;
  push_bottom = 0;
  ptr = 0;
  pop_sz = 0;
  q_sz = 0;
  push_sz = 0;
  buf = TickQueue.replicate 16 fresh;
}

-- Cache 2 owns line 5, and caches 0 and 1 have it too.
abbrev shared : DirEntry
shared = record { exists = 0 ∷ 1 ∷ 2 ∷ []; owner = 2; dirty = true }

abbrev one_way {ℓ} : {P : Type ℓ} → List (ℕ × P) → List ℕ → Block P
one_way entries lru = record {
  set_count = 1;
  line_per_set = 2;
  sets = entries ∷ [];
  lrus = lru ∷ [];
  pinned_line = [];
}

abbrev node : Llc
node = record {
  my_port_id = 1;
  nuca_num = 1;
  nuca_index = 0;
  index_cycle = 1;
  recv_buf = [];
  recv_buf_size = 4;
  processing_lindex = [];
  block = one_way [] [];
  directory = one_way ((5, shared) ∷ []) (5 ∷ []);
  queue_index = queue;
  queue_writeback = queue;
  queue_index_result = queue;
  process_buf = [];
  process_buf_size = 4;
}

node-IsSound : IsSound node.directory
unfolding find contains
node-IsSound k = ground (arith, bit_and-mask 0 k)

-- Cache 0, at port 10, asks to write the line.
abbrev getm : Package
getm = record fresh { type_ = MsgType.getm; lindex = 5; arg = 10 }

abbrev package_of : Option (Package × Llc) → Package × Llc
package_of none = (fresh, node)
package_of (some q) = q

abbrev answered : Package × Llc
answered = package_of (index busmap getm node)

run-getm : index busmap getm node ≡ some answered
unfolding index index_getm index_getm_held invalidate construct_msg_pack le_bytes find contains
    Sets.insert_sorted Lru.get_line
run-getm = refl

index-IsSound_example : (proper answered.0 ≡ true) × IsSound answered.1.directory
index-IsSound_example =
    index-IsSound busmap getm node {q = answered.0} {s = answered.1} node-IsSound run-getm

abbrev wrote : Llc
wrote = elim (commit answered.0 node) [ none ↦ node | some s ↦ s ]

run-commit : commit answered.0 node ≡ some wrote
unfolding commit index index_getm index_getm_held invalidate construct_msg_pack le_bytes find
    contains erase Sets.insert_sorted Sets.remove_all Lru.get_line Lru.insert_line
run-commit = refl

commit-IsSound_example : IsSound wrote.directory
commit-IsSound_example =
    commit-IsSound answered.0 node {s = wrote} node-IsSound
      (index-IsSound busmap getm node {q = answered.0} {s = answered.1} node-IsSound run-getm).0
      run-commit

-- Four caches, and no port for another.
abbrev four_caches : BusPortMapping
four_caches = record busmap { get_reqnode_port = λ k. if ltb k 4 then some (k + 10) else none }

index_getm_held_lem_example :
    index_getm_held four_caches 0 (record getm { entry = shared })
    ≡ some (record getm {
      need_send = getm_messages (λ k. k + 10) 0 (record getm { entry = shared });
      entry = sole 0;
      delay_commit = true;
    })
index_getm_held_lem_example =
    index_getm_held_lem four_caches (λ k. k + 10) 0 (record getm { entry = shared }) refl
      (refl, (refl, (refl, tt)))

-- Cache 1 puts the line back although it does not own it, and then the owner, cache 2, does.
abbrev stale : Package
stale = record fresh { type_ = MsgType.putm; lindex = 5; arg = 11 }

abbrev put : Package
put = record fresh { type_ = MsgType.putm; lindex = 5; arg = 12; line_buf = repeat 64 9 }

abbrev first_put : Package × Llc
first_put = package_of (index_put_dirty busmap stale node)

run-stale : index_put_dirty busmap stale node ≡ some first_put
unfolding index_put_dirty construct_msg_pack le_bytes find Sets.remove_all Lru.get_line
run-stale = refl

abbrev between : Llc
between = record node { directory = one_way ((5, first_put.0.entry) ∷ []) (5 ∷ []) }

abbrev second_put : Package × Llc
second_put = package_of (index_put_dirty busmap put between)

run-put : index_put_dirty busmap put between ≡ some second_put
unfolding index_put_dirty construct_msg_pack le_bytes find Sets.remove_all Lru.get_line
run-put = refl

put_dirty-lost_example : (second_put.1 ≡ between) × (second_put.0.need_send ≡ put_ack put ∷ [])
unfolding find index_put_dirty Sets.remove_all Lru.get_line
put_dirty-lost_example =
    put_dirty-lost busmap stale put node between 1 shared {q = first_put.0} {q' = second_put.0}
      {s = first_put.1} {s' = second_put.1} refl refl (λ e. absurd (omega arith))
      (λ e. absurd (omega arith)) run-stale refl refl run-put

-- A request arrives.
abbrev arriving : List (Option (List ℕ))
arriving =
    some (
      construct_msg_pack
        (record { type_ = MsgType.gets; arg = 10; transid = 0; line = 7; data_ = [] }))
    ∷ []

abbrev cycle : Option (List Ready × Llc)
cycle = on_current_tick busmap arriving (true ∷ true ∷ true ∷ []) node

abbrev later : List Ready × Llc
later = elim cycle [ none ↦ ([], node) | some q ↦ q ]

run-cycle : on_current_tick busmap arriving (true ∷ true ∷ true ∷ []) node ≡ some later
unfolding on_current_tick p1_fetch receive accept start make_package next_request p2_index
    index_next p3_process take_result send_all retire finished first_packet parse_msg_pack
    construct_msg_pack le_bytes le_value contains Sets.insert_sorted Lru.pin TickQueue.can_push
    TickQueue.can_pop TickQueue.push
run-cycle = refl

on_current_tick-Fits_example : Fits later.1
on_current_tick-Fits_example =
    on_current_tick-Fits busmap arriving (true ∷ true ∷ true ∷ []) node {sent = later.0}
      {s = later.1} (omega arith, omega arith) run-cycle
