-- ===== src/Bus/Cycle.antt =====
-- SymmetricMultiChannelBus::apply_next_tick of src/bus/symmulcha.cpp loses no package and makes none.
use nullrvsim.Prelude.{
  ℕ, ◌+◌, ◌≡◌, refl, Bool-cases, Option-cases, inl, inr, Option, none, some, List, [], ◌∷◌, length,
  map, ltb, arith,
}
use nullrvsim.Bus.Packs.{MsgPack}
use nullrvsim.Bus.Node.{Edge, Node, Wires, process_node}
use nullrvsim.Bus.Tick.{Bus, pass_channels, process_edge, process_nodes, apply_next_tick}
use nullrvsim.Bus.Sums.{sum, sum_values, Unique}
use nullrvsim.Bus.Load.{held, edge_load, port_load}
use nullrvsim.Bus.Conserve.{process_node-load}

abbrev pub node_load : Node → ℕ
node_load n = length n.pipeline + sum_values length n.order_buf

-- The packages of the bus.
abbrev pub bus_load : Bus → ℕ
bus_load b =
    sum node_load b.nodes + (sum edge_load b.wires.edges + sum_values port_load b.wires.ports)

abbrev pub AllKeyed : List Node → Type 0
AllKeyed [] = Unit
AllKeyed (n ∷ ns) = Unique n.order_buf × AllKeyed ns

-- No message stands twice at a node, and no port twice.
abbrev pub IsKeyedBus : Bus → Type 0
IsKeyedBus b = AllKeyed b.nodes × Unique b.wires.ports

pass_channels-load :
    (width total : ℕ) (ins outs : List (Option MsgPack))
    → sum held (pass_channels width total ins outs).0
        + sum held (pass_channels width total ins outs).1
      ≡ sum held ins + sum held outs
unfolding pass_channels sum
pass_channels-load width total [] outs = refl
pass_channels-load width total (none ∷ ins) [] = refl
pass_channels-load width total (some p ∷ ins) [] = refl
pass_channels-load width total (none ∷ ins) (o ∷ outs) =
    omega (arith, pass_channels-load width total ins outs)
pass_channels-load width total (some p ∷ ins) (none ∷ outs) = elim (Bool-cases (ltb total width)) [
  | inl room ↦ ground (arith, pass_channels-load width (total + length p.data_) ins outs)
  | inr full ↦ ground (arith, pass_channels-load width total ins outs)
]
pass_channels-load width total (some p ∷ ins) (some q ∷ outs) =
    omega (arith, pass_channels-load width total ins outs)

process_edges-load :
    (width : ℕ) (edges : List Edge)
    → sum edge_load (map (process_edge width) edges) ≡ sum edge_load edges
unfolding sum process_edge
process_edges-load width [] = refl
process_edges-load width (e ∷ es) =
    omega (arith, process_edges-load width es, pass_channels-load width 0 e.input e.output)

process_nodes-load :
    (route : ℕ → ℕ → ℕ) (latency : ℕ) (nodes : List Node) (w : Wires) {ns : List Node} {v : Wires}
    → process_nodes route latency nodes w ≡ some (ns, v)
    → AllKeyed nodes
    → Unique w.ports
    → (bus_load (record { nodes = ns; wires = v }) ≡ bus_load (record { nodes = nodes; wires = w }))
      × IsKeyedBus (record { nodes = ns; wires = v })
unfolding process_nodes sum
process_nodes-load route latency [] w h a u = ground arith
process_nodes-load route latency (n ∷ nodes) w {ns} {v} h a u =
    elim (Option-cases (process_node (route n.myid) latency n w)) [
      | inl f ↦ absurd (ground arith)
      | inr ((n', w'), f) ↦
          let one = process_node-load (route n.myid) latency n w {n = n'} {v = w'} f (a.0, u) in
          elim (Option-cases (process_nodes route latency nodes w')) [
            | inl g ↦ absurd (ground arith)
            | inr ((ns', w''), g) ↦ ground (
              arith,
              one,
              process_nodes-load route latency nodes w' {ns = ns'} {v = w''} g a.1 one.1.1,
            )
          ]
    ]

-- A cycle of the bus that comes to its end leaves as many packages in the bus as there were, and again no
-- message stands twice at a node and no port twice.
pub apply_next_tick-load :
    (route : ℕ → ℕ → ℕ) (latency width : ℕ) (b : Bus) {c : Bus}
    → apply_next_tick route latency width b ≡ some c
    → IsKeyedBus b
    → (bus_load c ≡ bus_load b) × IsKeyedBus c
unfolding apply_next_tick
apply_next_tick-load route latency width b {c} h u =
    elim (Option-cases (process_nodes route latency b.nodes b.wires)) [
      | inl f ↦ absurd (ground arith)
      | inr ((ns, w), f) ↦ ground (
        arith,
        process_nodes-load route latency b.nodes b.wires {ns = ns} {v = w} f u.0 u.1,
        process_edges-load width w.edges,
      )
    ]
