-- ===== src/Moesi/Tests.antt =====
-- A first-level cache of one set with one line, and the theorems at it.
use nullrvsim.Prelude.{
  ℕ, ◌%◌, ◌≡◌, refl, true, false, ◌==◌, if◌then◌else◌, Option, none, some, List, [], ◌∷◌, length,
  arith,
}
use nullrvsim.Prelude.Bits.{bit_and-mask}
use nullrvsim.Prelude.Assoc.{find, insert, erase}
use nullrvsim.SimError.{success}
use nullrvsim.Prelude.Sets
use nullrvsim.Cache.Lru
use nullrvsim.Cache.Lru.{Block, repeat}
use nullrvsim.Cache.Replace.{is_victim}
use nullrvsim.Cache.Mshr
use nullrvsim.Cache.Lookup.{lookup}
use nullrvsim.Moesi.Codes.LineState
use nullrvsim.Moesi.Codes.Pending
use nullrvsim.Moesi.Codes.MsgType
use nullrvsim.Moesi.L1.Port.{first_packet}
use nullrvsim.Moesi.Message.{le_bytes, le_value, Msg, construct_msg_pack, parse_msg_pack}
use nullrvsim.Moesi.Packing.{parse_msg_pack-construct_msg_pack}
use nullrvsim.Moesi.MemNode.{MemoryNode, receive, accept, operation, on_current_tick}
use nullrvsim.Moesi.MemWrites.{settled, on_current_tick-settled}
use nullrvsim.Moesi.L1.{
  Cache, Line, zeroed, addr_to_line_index, get_line, get_entry, put_line, remove_line,
}
use nullrvsim.Moesi.L1.Port.{recieve_msg}
use nullrvsim.Moesi.L1.Access.{load, load_line, store, store_line, stored, store_conditional}
use nullrvsim.Moesi.L1.Forward.{Handled, failed, later, done, remove_entry, handle_getm_forward}
use nullrvsim.Moesi.L1.Install.{handle_new_line, install, evict, write_back}
use nullrvsim.Moesi.L1.Handle.{dispatch, handle_received_msg, handle_gets_resp}
use nullrvsim.Moesi.L1.Occupancy.{IsSeparate}
use nullrvsim.Moesi.L1.Separate.{handle_received_msg-IsSeparate}
use nullrvsim.Moesi.L1.Keeping.{writable, accesses-IsSeparate}
use nullrvsim.Moesi.L1.Progress.{proper, Departs, handle_new_line-succeeds}
use nullrvsim.Moesi.L1.Pushing.{Fits}
use nullrvsim.Moesi.L1.Capacity.{handle_received_msg-Fits}
use nullrvsim.Moesi.L1.Memory.{store-success, load-store}
use nullrvsim.Moesi.L1.Reservation.{store_conditional-handle_getm_forward}

abbrev old : Msg
old = record { type_ = 0; arg = 0; transid = 0; line = 0; data_ = [] }

-- Line 1 is in the block, exclusive, and line 2 waits for its data, which has arrived.
abbrev waiting : Cache
waiting = record {
  has_recieved = true;
  has_processed = false;
  msgbuf = record {
    type_ = MsgType.gets_resp;
    arg = 1;
    transid = 0;
    line = 2;
    data_ = 8 ∷ 9 ∷ repeat 62 0;
  };
  my_port_id = 3;
  send_buf = [];
  send_buf_size = 4;
  block = record {
    set_count = 1;
    line_per_set = 1;
    sets = ((1, record { bytes = repeat 64 0; state = LineState.exclusive }) ∷ []) ∷ [];
    lrus = (1 ∷ []) ∷ [];
    pinned_line = [];
  };
  mshrs = record { max_sz = 1; hashmap = (2, record zeroed { state = Pending.itos }) ∷ [] };
  newlines = [];
  arrivals = [];
  reserved_address_valid = true;
  reserved_address = 64;
}

waiting-IsSeparate : IsSeparate waiting
unfolding find
waiting-IsSeparate k = ground (arith, bit_and-mask 0 k)

abbrev home : ℕ → Option ℕ
home k = some 7

abbrev result : Option Cache → Cache
result none = waiting
result (some s) = s

handle_received_msg-IsSeparate_example : IsSeparate (result (handle_received_msg home waiting))
unfolding handle_received_msg dispatch handle_gets_resp install handle_new_line evict write_back
    get_entry Mshr.get Mshr.alloc Mshr.remove remove_entry find insert erase Lru.insert_line
    Lru.remove_line Lru.get_line Lru.back Sets.remove_all Lru.remove_first
handle_received_msg-IsSeparate_example =
    handle_received_msg-IsSeparate home waiting waiting-IsSeparate refl

parse_msg_pack-construct_msg_pack_example :
    parse_msg_pack (construct_msg_pack waiting.msgbuf) old ≡ record waiting.msgbuf {
      data_ = if length waiting.msgbuf.data_ == 0 then old.data_ else waiting.msgbuf.data_;
    }
parse_msg_pack-construct_msg_pack_example =
    parse_msg_pack-construct_msg_pack waiting.msgbuf old (record {
      type_fits = omega arith;
      arg_fits = omega arith;
      transid_fits = omega arith;
      line_fits = omega arith;
    })

handle_received_msg-Fits_example : Fits (result (handle_received_msg home waiting))
unfolding handle_received_msg dispatch handle_gets_resp install handle_new_line evict write_back
    get_entry Mshr.get Mshr.alloc Mshr.remove remove_entry find insert erase Lru.insert_line
    Lru.remove_line Lru.get_line Lru.back Sets.remove_all Lru.remove_first
handle_received_msg-Fits_example = handle_received_msg-Fits home waiting (omega arith) refl

-- What a store at the line in the block leaves.
abbrev written : Cache
written = elim (store home [] 64 2 (5 ∷ 6 ∷ []) [] waiting) [ none ↦ waiting | some q ↦ q.1 ]

store-written : store home [] 64 2 (5 ∷ 6 ∷ []) [] waiting ≡ some (success, written)
unfolding store store_line recieve_msg put_line find erase Lru.get_line Sets.remove_all
store-written = refl

abbrev read : Cache
read = (load home [] 64 2 (5 ∷ 6 ∷ []) [] waiting).2

load-read : load home [] 64 2 (5 ∷ 6 ∷ []) [] waiting ≡ (success, 0 ∷ 0 ∷ [], read)
unfolding load load_line recieve_msg find Lru.get_line Sets.remove_all
load-read = refl

accesses-IsSeparate_example : IsSeparate read × IsSeparate written
accesses-IsSeparate_example =
    accesses-IsSeparate home [] 64 2 (5 ∷ 6 ∷ []) [] waiting {s = read} {t = written}
      waiting-IsSeparate load-read store-written

waiting-proper : (k : ℕ) → proper (lookup waiting.block k) ≡ true
unfolding find
waiting-proper k = ground (arith, bit_and-mask 0 k)

-- Line 2 arrives for reading, and line 1 has to go.
abbrev two : Line
two = record { bytes = 9 ∷ []; state = LineState.shared }

abbrev after_two : Option (ℕ × Line) × Block Line
after_two = elim (Lru.insert_line 2 two waiting.block) [ none ↦ (none, waiting.block) | some x ↦ x ]

insert-two : Lru.insert_line 2 two waiting.block ≡ some (after_two.0, after_two.1)
unfolding Lru.insert_line Lru.remove_line Lru.get_line Lru.back Sets.remove_all Lru.remove_first
    find insert erase
insert-two = refl

handle_new_line-succeeds_example :
    (s : Cache) × (handle_new_line
        (λ k. some 7)
        2
        (record zeroed { line_buf = 9 ∷ [] })
        LineState.shared
        waiting
      ≡ some s)
    × ((k : ℕ)
        → lookup s.block k ≡ (
            if k == 2
            then some two
            else if is_victim after_two.0 k
            then none
            else lookup waiting.block k))
    × (find 2 s.mshrs.hashmap ≡ none)
    × Departs (λ k. 7) waiting s after_two.0
unfolding find
handle_new_line-succeeds_example =
    handle_new_line-succeeds (λ k. 7) 2 (record zeroed { state = Pending.itos })
      (record zeroed { line_buf = 9 ∷ [] }) LineState.shared waiting {replaced = after_two.0}
      {block = after_two.1} waiting-IsSeparate waiting-proper refl (omega arith) insert-two

store-success_example :
    (p : Line) × (lookup waiting.block (addr_to_line_index 64) ≡ some p)
    × (writable p ≡ true)
    × (lookup written.block 1 ≡ (
        if 1 == addr_to_line_index 64
        then some (record {
          bytes = stored (64 % 64) 2 (5 ∷ 6 ∷ []) [] p.bytes;
          state = LineState.modified;
        })
        else lookup waiting.block 1))
store-success_example =
    store-success home [] 64 2 (5 ∷ 6 ∷ []) [] waiting {s = written} 1 waiting-IsSeparate
      store-written

full-lines : (k : ℕ) (p : Line) → lookup waiting.block k ≡ some p → length p.bytes ≡ 64
unfolding find
full-lines k p h = ground (arith, bit_and-mask 0 k)

load-store_example :
    ((load home [] 64 2 (0 ∷ 0 ∷ []) [] written).0 ≡ success)
    × ((load home [] 64 2 (0 ∷ 0 ∷ []) [] written).1 ≡ 5 ∷ 6 ∷ [])
load-store_example =
    load-store home [] [] 64 (5 ∷ 6 ∷ []) (0 ∷ 0 ∷ []) waiting {s = written} waiting-IsSeparate
      full-lines (omega arith) store-written

abbrev outcome : Handled → Cache
outcome failed = waiting
outcome later = waiting
outcome (done s) = s

abbrev handed_over : Cache
handed_over = outcome (handle_getm_forward 1 5 waiting)

handle-handed_over : handle_getm_forward 1 5 waiting ≡ done handed_over
unfolding handle_getm_forward remove_line get_line get_entry Mshr.get find erase Lru.get_line
    Lru.remove_line Sets.remove_all Lru.remove_first
handle-handed_over = refl

store_conditional-handle_getm_forward_example :
    store_conditional home [] 64 1 (9 ∷ []) handed_over ≡ store home [] 64 1 (9 ∷ []) [] handed_over
store_conditional-handle_getm_forward_example =
    store_conditional-handle_getm_forward home [] 64 1 1 5 (9 ∷ []) waiting refl refl
      handle-handed_over

-- A memory of one line, with a write that has the last half of the line left.
abbrev memory : MemoryNode
memory = record {
  memblk = repeat 64 0;
  membufs =
      record {
        lindex = 0;
        hostoff = 0;
        src_port = 3;
        transid = 0;
        op = true;
        linebuf = repeat 64 1;
        processed = 32;
      }
      ∷ [];
  dwidth = 32;
  memory_access_buf_size = 4;
}

abbrev request : Option (List ℕ)
request = some (
    construct_msg_pack
      (record { type_ = MsgType.gets_forward; arg = 2; transid = 0; line = 0; data_ = [] }))

on_current_tick-settled_example :
    settled (on_current_tick (λ k. true) (λ k. 0) (none ∷ request ∷ []) true memory) ≡ true
unfolding receive accept operation first_packet parse_msg_pack construct_msg_pack le_bytes le_value
on_current_tick-settled_example =
    on_current_tick-settled (λ k. true) (λ k. 0) (none ∷ request ∷ []) true memory refl refl
