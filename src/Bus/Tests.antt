-- ===== src/Bus/Tests.antt =====
-- Rings of three nodes.
use nullrvsim.Prelude.{
  if◌then◌else◌, ◌==◌, length, get_or, ◌/◌, none, ℕ, zero, suc, ◌≡◌, refl, true, some, List, [],
  ◌∷◌, arith,
}
use nullrvsim.Prelude.Assoc.{find, erase}
use nullrvsim.Bus.Routes.{
  node, BusRouteTable, follow, insert_run, insert_until, route_insert, double_ring_from,
  double_ring_node, genroute_double_ring, assert_route_table_valid,
}
use nullrvsim.Prelude.Sets.{contains}
use nullrvsim.Bus.Packs.{MsgPack, make_packs, send, recv}
use nullrvsim.Bus.Node.{Edge, Port, Node, Wires, advance}
use nullrvsim.Bus.Tick.{Bus, process_edge, apply_next_tick}
use nullrvsim.Bus.Sums.{sum, sum_values}
use nullrvsim.Bus.Cycle.{bus_load}
use nullrvsim.Bus.Wired.{Plan}
use nullrvsim.Bus.Always.{IsSound, apply_next_tick-IsSound}
use mathlib.Core.List.{Permᴰ}
use nullrvsim.Bus.Reorder.{arrive_all}
use nullrvsim.Bus.Message.{recv-Perm}
use nullrvsim.Bus.Latency.{with_latency, advance-with_latency}
use nullrvsim.Bus.Edges.{on_channels, process_edge-on_channels}
use nullrvsim.Bus.Ring.{IsRing}
use nullrvsim.Bus.ShortWay.{genroute_double_ring-valid}
use nullrvsim.Bus.DoubleRing.{terminates, genroute_double_ring-terminates}

abbrev three : List ℕ
three = 7 ∷ 5 ∷ 9 ∷ []

three-IsRing : IsRing three
three-IsRing zero zero h k e = refl
three-IsRing zero (suc zero) h k e = absurd (omega arith)
three-IsRing zero (suc (suc zero)) h k e = absurd (omega arith)
three-IsRing zero (suc (suc (suc b))) h k e = absurd (omega arith)
three-IsRing (suc zero) zero h k e = absurd (omega arith)
three-IsRing (suc zero) (suc zero) h k e = refl
three-IsRing (suc zero) (suc (suc zero)) h k e = absurd (omega arith)
three-IsRing (suc zero) (suc (suc (suc b))) h k e = absurd (omega arith)
three-IsRing (suc (suc zero)) zero h k e = absurd (omega arith)
three-IsRing (suc (suc zero)) (suc zero) h k e = absurd (omega arith)
three-IsRing (suc (suc zero)) (suc (suc zero)) h k e = refl
three-IsRing (suc (suc zero)) (suc (suc (suc b))) h k e = absurd (omega arith)
three-IsRing (suc (suc (suc a))) b h k e = absurd (omega arith)

genroute_double_ring-terminates_example : terminates (genroute_double_ring three) ≡ true
genroute_double_ring-terminates_example = genroute_double_ring-terminates three

-- A message of three bytes in packages of two.
abbrev shared_head : MsgPack
shared_head = record {
  src = 1;
  dst = 2;
  tgt = 5;
  cha = 0;
  xmtid = 9;
  len = 0;
  pac_idx = 0;
  pac_cnt = 0;
  data_ = [];
}

abbrev made : BusRouteTable
made = elim (genroute_double_ring three) [ none ↦ [] | some t ↦ t ]

three-made : genroute_double_ring three ≡ some made
unfolding genroute_double_ring double_ring_from double_ring_node insert_run insert_until
    route_insert find erase
three-made = refl

genroute_double_ring-valid_example :
    (assert_route_table_valid three made ≡ true)
    × (follow (length three / 2) (node three 0) (node three 2) made ≡ node three 2)
genroute_double_ring-valid_example =
    genroute_double_ring-valid three made 0 2 three-IsRing three-made (omega arith) (omega arith)

-- Its two packages, of which the second arrives first, at a node with the port 2.
abbrev packages : List MsgPack
packages = (send (record shared_head { pac_cnt = 2 }) 2 (7 ∷ 8 ∷ 9 ∷ []) []).1

abbrev first : MsgPack
first = get_or packages 0 shared_head

abbrev second : MsgPack
second = get_or packages 1 shared_head

abbrev here : Node
here = record {
  myid = 5;
  txs = (7, 0) ∷ [];
  rxs = [];
  rx_ptr = 0;
  pipeline = [];
  order_buf = [];
  port = 2 ∷ [];
  sd_ptr = 0;
}

abbrev idle : Port
idle = record { recv_buf = [] ∷ []; send_buf = [] ∷ [] }

abbrev wires : Wires
wires = record {
  edges = record { input = none ∷ []; output = none ∷ [] } ∷ [];
  ports = (2, idle) ∷ [];
}

exchanged : Permᴰ packages (second ∷ first ∷ [])
unfolding send make_packs
exchanged = Permᴰ.swap refl refl

recv-Perm_example :
    (n : Node) × (v : Wires) × (q : Port) × (arrive_all (second ∷ first ∷ []) here wires
      ≡ some (n, v))
    × (find 2 v.ports ≡ some q)
    × (recv 2 [] (get_or q.recv_buf 0 []) ≡ some (true, 7 ∷ 8 ∷ 9 ∷ [], []))
unfolding find contains
recv-Perm_example =
    recv-Perm (record shared_head { pac_cnt = 2 }) 2 (7 ∷ 8 ∷ 9 ∷ []) [] (second ∷ first ∷ []) here
      wires idle (omega arith) (omega arith) (omega arith) (omega arith) exchanged refl refl refl
      (omega arith) refl

advance-with_latency_example :
    advance (λ k. 7) here.txs (with_latency (λ p. 3) (shared_head ∷ [])) wires.edges
    ≡ advance (λ k. 7) here.txs (with_latency (λ p. 0) (shared_head ∷ [])) wires.edges
advance-with_latency_example =
    advance-with_latency (λ k. 7) here.txs (shared_head ∷ []) wires.edges (λ p. 3) (λ p. 0)

abbrev loaded : Edge
loaded = record {
  input = some shared_head ∷ some shared_head ∷ [];
  output = none ∷ some shared_head ∷ [];
}

process_edge-on_channels_example :
    on_channels (process_edge 64 loaded).input (process_edge 64 loaded).output
    ≡ (shared_head ∷ []) ∷ (shared_head ∷ shared_head ∷ []) ∷ []
process_edge-on_channels_example = process_edge-on_channels 64 loaded

-- Two nodes, with an edge each way: a package comes in at the one that has a package for the other.
abbrev two_nodes : Plan
two_nodes = record {
  channels = 1;
  edge_count = 2;
  ids = 2 ∷ 3 ∷ [];
  home = λ d. if d == 2 then 5 else 7;
  route = λ n t. t;
}

abbrev incoming : MsgPack
incoming = record shared_head { cha = 0; tgt = 5; dst = 2; pac_cnt = 1 }

abbrev outgoing : MsgPack
outgoing = record shared_head { cha = 0; tgt = 7; dst = 3; pac_cnt = 1 }

abbrev busy : Bus
busy = record {
  nodes =
      record here { rxs = 1 ∷ []; pipeline = (outgoing, 3) ∷ [] }
      ∷ record here { myid = 7; txs = (5, 1) ∷ []; rxs = 0 ∷ []; port = 3 ∷ [] }
      ∷ [];
  wires = record {
    edges =
        record { input = none ∷ []; output = none ∷ [] }
        ∷ record { input = none ∷ []; output = some incoming ∷ [] }
        ∷ [];
    ports = (2, idle) ∷ (3, idle) ∷ [];
  };
}

busy-IsSound : IsSound two_nodes busy
unfolding find contains
busy-IsSound = (
  (
    (
      (
        λ d k h. ground arith,
        λ d k h. (0, ground arith, omega arith),
        (((omega arith, refl, refl), λ e. absurd (omega (arith, e))), tt),
        refl,
      ),
      ((λ d k h. ground arith, λ d k h. (1, ground arith, omega arith), tt, refl), tt),
    ),
    (
      refl,
      ((refl, (tt, tt), (tt, tt)), ((refl, (tt, tt), ((omega arith, refl, refl), tt)), tt)),
      λ d k. (idle, ground arith),
      ((refl, (tt, tt)), ((refl, (tt, tt)), tt)),
    ),
  ),
  ((tt, (tt, tt)), (refl, (refl, tt))),
)

apply_next_tick-IsSound_example :
    (c : Bus) × (apply_next_tick (λ n t. t) 3 64 busy ≡ some c)
    × IsSound two_nodes c
    × (bus_load c ≡ 2)
unfolding sum sum_values
apply_next_tick-IsSound_example = apply_next_tick-IsSound two_nodes 3 64 busy busy-IsSound
