-- ===== src/SimpleCc/Tests.antt =====
-- Three first-level caches at one last level, and the theorems at them.
use nullrvsim.Prelude.{
  ℕ, ◌≡◌, refl, true, false, ◌==◌, ◌&&◌, if◌then◌else◌, Option, none, some, List, [], ◌∷◌, arith,
}
use nullrvsim.Prelude.Bits.{bit_and-mask}
use nullrvsim.Prelude.Assoc.{find, erase}
use nullrvsim.Prelude.Sets.{contains, remove_all}
use nullrvsim.Cache.Lru
use nullrvsim.Cache.Lru.{repeat}
use nullrvsim.Cache.Lookup.{lookup, IsWhole}
use nullrvsim.SimpleCc.Codes.Req
use nullrvsim.SimpleCc.Codes.Snoop
use nullrvsim.SimpleCc.Port.{Bundle, zeroed, retire_request}
use nullrvsim.SimpleCc.L1
use nullrvsim.SimpleCc.L1.{L1, snoop_data}
use nullrvsim.SimpleCc.Llc.{Llc, port_at, handle_read, handle_readu, handle_put, seek}
use nullrvsim.SimpleCc.Owned.{IsOwned, on_current_tick-IsOwned}
use nullrvsim.SimpleCc.Holders.{holds, IsApart, handlers-holds, handle_put-holds}
use nullrvsim.SimpleCc.Arbiter.{asks, seek-asks}
use nullrvsim.SimpleCc.Cycles.{two_cycles}
use nullrvsim.SimpleCc.Transfer.{exchange, asked, readu-delivers, readu-stale}

-- A cache of one set with two ways that holds line 1 and may write it.
abbrev holder : L1
holder = record {
  cb = record {
    set_count = 1;
    line_per_set = 2;
    sets = ((1, repeat 64 7) ∷ []) ∷ [];
    lrus = (1 ∷ []) ∷ [];
    pinned_line = [];
  };
  writeable = 1 ∷ [];
  waiting = Req.idle;
  wait_line = 0;
  put_line_data = repeat 64 0;
  arrival = [];
  reserved_address_valid = false;
  reserved_address = 0;
}

holder-IsWhole : IsWhole holder.cb
holder-IsWhole k = ground (arith, bit_and-mask 0 k)

holder-IsOwned : IsOwned holder
unfolding find contains
holder-IsOwned k = ground (arith, bit_and-mask 0 k)

-- Line 1 is taken away by a snoop.
abbrev snoop : Bundle
snoop = record zeroed { snoop = Snoop.uniq; snoop_line = 1 }

abbrev emptied : Option (L1 × Bundle) → L1 × Bundle
emptied none = (holder, snoop)
emptied (some q) = q

abbrev after : L1 × Bundle
after = emptied (L1.on_current_tick holder snoop)

run-snoop : L1.on_current_tick holder snoop ≡ some after
unfolding L1.on_current_tick L1.snooped L1.answered snoop_data retire_request find erase remove_all
    Lru.get_line Lru.remove_line Lru.remove_first
run-snoop = refl

on_current_tick-IsOwned_example : IsOwned after.0
on_current_tick-IsOwned_example =
    on_current_tick-IsOwned holder snoop {d = after.0} {q = after.1} holder-IsOwned run-snoop

-- Cache 1 owns line 1; the caches of `sharers` share it, and cache 0 asks for it.
abbrev level : List ℕ → Llc
level sharers = record {
  index_latency = 1;
  bus_latency = 2;
  mem_base_addr = 0;
  memory_latency = 10;
  state = (1, record { owner = 1; shared = sharers }) ∷ [];
  llc_cb = record {
    set_count = 1;
    line_per_set = 1;
    sets = [] ∷ [];
    lrus = [] ∷ [];
    pinned_line = [];
  };
  port_num = 3;
  current = 2;
  busy = 0;
  ports = record zeroed { req = Req.readu; req_line = 1 } ∷ zeroed ∷ zeroed ∷ [];
  set_snoop = 0;
  need_snoop_data = false;
  who_need_snoop_data = 0;
  wait_snoop_data = 0;
  mem = repeat 128 0;
}

abbrev least : List ℕ → ℕ
least [] = 0
least (k ∷ ks) = k

handlers-holds_example :
    (holds (handle_read 0 (level [])).1 1 0
      ≡ (if 1 == 1 && 0 == 0 then true else holds (level []) 1 0))
    × (holds (handle_readu 0 (level [])).1 1 0 ≡ (if 1 == 1 then true else holds (level []) 1 0))
handlers-holds_example = handlers-holds 0 (level []) 1 0

level-IsApart : IsApart (level (0 ∷ []))
unfolding find contains
level-IsApart k = ground arith

least-picks : (k : ℕ) (ks : List ℕ) → contains (least (k ∷ ks)) (k ∷ ks) ≡ true
unfolding contains
least-picks k ks = ground arith

abbrev put_back : Llc
put_back = elim (handle_put least 0 (level (0 ∷ []))) [ none ↦ level [] | some (n, t) ↦ t ]

run-put : handle_put least 0 (level (0 ∷ [])) ≡ some (1, put_back)
unfolding handle_put find erase contains remove_all
run-put = refl

handle_put-holds_example :
    holds put_back 1 0 ≡ (if 1 == 1 && 0 == 0 then false else holds (level (0 ∷ [])) 1 0)
handle_put-holds_example =
    handle_put-holds least least-picks 0 (level (0 ∷ [])) {t = put_back} 1 0 level-IsApart run-put

seek-asks_example : asks (level []) (seek 3 (level [])).current ≡ true
seek-asks_example = seek-asks (level []) 0 (omega arith) (omega arith) (omega arith) refl

found-line :
    (sharers : List ℕ)
    → find 1 (level sharers).state ≡ some (record { owner = 1; shared = sharers })
unfolding find
found-line sharers = refl

readu-delivers_example :
    (d : L1) × (t u : Llc) × (exchange 1 holder (asked 0 (level [])) ≡ some (d, t))
    × (two_cycles least t ≡ some u)
    × ((port_at 0 u).req_line_buf ≡ repeat 64 7)
    × (lookup d.cb 1 ≡ none)
    × (contains 1 d.writeable ≡ false)
unfolding snoop_data Lru.get_line find
readu-delivers_example =
    readu-delivers 0 (level []) (record { owner = 1; shared = [] }) (found-line []) (omega arith)
      refl least (omega arith) holder (repeat 64 7) holder-IsWhole refl refl

readu-stale_example :
    (d : L1) × (t u : Llc) × (exchange 1 holder (asked 0 (level (2 ∷ []))) ≡ some (d, t))
    × (two_cycles least t ≡ some u)
    × ((port_at 0 u).req_line_buf ≡ repeat 64 0)
readu-stale_example =
    readu-stale 0 (level (2 ∷ [])) (record { owner = 1; shared = 2 ∷ [] }) (found-line (2 ∷ []))
      (omega arith) refl least (omega arith) holder refl
