-- ===== src/Bus/Sending.antt =====
-- Sending keeps the bus as its plan says.
use nullrvsim.Prelude.{
  ℕ, zero, suc, ◌+◌, ◌%◌, ◌^◌, ◌<◌, ◌≡◌, refl, true, ltb, lt→ltb, some, List, [], length, get_or,
  set, arith,
}
use nullrvsim.Prelude.Assoc.{find, assign}
use nullrvsim.Prelude.Sets.{contains}
use nullrvsim.Bus.Packs.{MsgPack, pack_count, make_packs, send}
use nullrvsim.Bus.Delivery.{length-make_packs}
use nullrvsim.Bus.Node.{Port, Wires}
use nullrvsim.Bus.Endpoint.{header, send_at}
use nullrvsim.Bus.Sums.{sum-set, sum_values, Unique, sum_values-assign, assign-Unique}
use nullrvsim.Bus.Load.{port_load}
use nullrvsim.Bus.Every.{Every, set-Every, find-EveryValue}
use nullrvsim.Bus.Wired.{Plan, IsGood, IsPort, IsWires, assign-IsWires}

module _ (s : Plan) where
  make_packs-IsGood :
      (head : MsgPack) (cwid : ℕ) (data_ : List ℕ) (k i pos : ℕ)
      → IsGood s head
      → Every (IsGood s) (make_packs head cwid data_ k i pos)
  unfolding make_packs
  make_packs-IsGood head cwid data_ zero i pos g = tt
  make_packs-IsGood head cwid data_ (suc k) i pos g =
      (g, make_packs-IsGood head cwid data_ k (i + 1) (pos + cwid) g)

  -- Into an empty buffer of a port and a channel of the bus, a message for a port of the bus is sent; the
  -- ports keep fitting together, no port stands twice, and there are as many packages more as the message
  -- has.
  pub send_at-IsWires :
      (widths : List ℕ) (port dst channel : ℕ) (data_ : List ℕ) (xmt : ℕ) (w : Wires) (p : Port)
      → length widths ≡ s.channels
      → contains dst s.ids ≡ true
      → channel < s.channels
      → channel < length p.send_buf
      → find port w.ports ≡ some p
      → get_or p.send_buf channel [] ≡ []
      → Unique w.ports
      → IsWires s w
      → (v : Wires) × (send_at s.home widths port dst channel data_ xmt w
          ≡ some (true, v, (xmt + 1) % 2 ^ 32))
        × IsWires s v
        × Unique v.ports
        × (sum_values port_load v.ports
            ≡ sum_values port_load w.ports + pack_count (length data_) (get_or widths channel 0))
  unfolding send_at send
  send_at-IsWires widths port dst channel data_ xmt w p len known room there found free u good =
      let cwid = get_or widths channel 0 in
      let cnt = pack_count (length data_) cwid in
      let head = record (header s.home port dst channel xmt) {
        len = length data_ % 2 ^ 32;
        pac_cnt = cnt % 2 ^ 16;
      } in
      let packs = make_packs head cwid data_ cnt 0 0 in
      let p' = record p { send_buf = set p.send_buf channel packs } in
      let fits = find-EveryValue (IsPort s) port w.ports {a = p} good.3 found in
      let open_ : ltb channel (length widths) ≡ true =
        lt→ltb channel (length widths) (omega (arith, len, room)) in
      (
        record w { ports = assign port p' w.ports },
        rw (open_, found, free) refl,
        assign-IsWires s w port p'
            (
              fits.0,
              set-Every (Every (IsGood s)) p.send_buf channel packs
                  (make_packs-IsGood head cwid data_ cnt 0 0 (room, known, refl)) fits.1,
            )
            good,
        assign-Unique port p' w.ports u,
        ground (
          arith,
          sum_values-assign port_load port p' w.ports u,
          sum-set length p.send_buf channel packs [] there,
          length-make_packs head cwid data_ cnt 0 0,
          found,
          free,
        ),
      )
