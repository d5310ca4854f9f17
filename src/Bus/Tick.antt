-- ===== src/Bus/Tick.antt =====
-- src/bus/symmulcha.cpp: process_edge and apply_next_tick of SymmetricMultiChannelBus, a cycle of the bus.
use nullrvsim.Prelude.{ℕ, ◌+◌, ltb, if◌then◌else◌, Option, none, some, List, [], ◌∷◌, length, map}
use nullrvsim.Bus.Packs.{MsgPack}
use nullrvsim.Bus.Node.{Edge, Node, Wires, process_node}

-- The loop of process_edge, with the bytes that have passed so far.
unfoldable pub pass_channels :
    ℕ
    → ℕ
    → List (Option MsgPack)
    → List (Option MsgPack)
    → List (Option MsgPack) × List (Option MsgPack)
pass_channels width total (some p ∷ ins) (none ∷ outs) =
    let size = length p.data_ in
    let (i, o) = pass_channels width (if ltb total width then total + size else total) ins outs in
    if ltb total width then (none ∷ i, some p ∷ o) else (some p ∷ i, none ∷ o)
pass_channels width total (none ∷ ins) (o ∷ outs) =
    let (i, os) = pass_channels width total ins outs in (none ∷ i, o ∷ os)
pass_channels width total (some p ∷ ins) (some q ∷ outs) =
    let (i, os) = pass_channels width total ins outs in (some p ∷ i, some q ∷ os)
pass_channels width total [] outs = ([], outs)
pass_channels width total (i ∷ ins) [] = (i ∷ ins, [])

unfoldable pub process_edge : ℕ → Edge → Edge
process_edge width edge =
    let (i, o) = pass_channels width 0 edge.input edge.output in record { input = i; output = o }

-- SymmetricMultiChannelBus: its nodes in the order in which they are gone through, and what they share.
pub record Bus : Type 0 where
  pub nodes : List Node
  pub wires : Wires

-- The loop over the nodes; `route n t` is route[n][t].
unfoldable pub process_nodes : (ℕ → ℕ → ℕ) → ℕ → List Node → Wires → Option (List Node × Wires)
process_nodes route route_latency [] w = some ([], w)
process_nodes route route_latency (n ∷ ns) w =
    elim (process_node (route n.myid) route_latency n w) [
      | none ↦ none
      | some (n', w') ↦ elim (process_nodes route route_latency ns w') [
        | none ↦ none
        | some (ns', w'') ↦ some (n' ∷ ns', w'')
      ]
    ]

unfoldable pub apply_next_tick : (ℕ → ℕ → ℕ) → ℕ → ℕ → Bus → Option Bus
apply_next_tick route route_latency width bus =
    elim (process_nodes route route_latency bus.nodes bus.wires) [
      | none ↦ none
      | some (ns, w) ↦
          some record { nodes = ns; wires = record w { edges = map (process_edge width) w.edges } }
    ]
