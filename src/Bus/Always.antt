-- ===== src/Bus/Always.antt =====
-- SymmetricMultiChannelBus::apply_next_tick of src/bus/symmulcha.cpp: a bus that is put together as its plan
-- says runs for ever.
use nullrvsim.Prelude.{
  ℕ, suc, ◌+◌, ◌≡◌, refl, sym, subst, ap, ◌∙◌, Bool-cases, inl, inr, Option, none, some, List, [],
  ◌∷◌, length, map, ltb, arith,
}
use nullrvsim.Bus.Packs.{MsgPack}
use nullrvsim.Bus.Node.{Edge, Node, Wires}
use nullrvsim.Bus.Tick.{Bus, pass_channels, process_edge, process_nodes, apply_next_tick}
use nullrvsim.Bus.Every.{Every}
use nullrvsim.Bus.Wired.{Plan, IsGoodOr, IsEdge, IsNode, IsWires}
use nullrvsim.Bus.Cycle.{bus_load, IsKeyedBus, apply_next_tick-load}
use nullrvsim.Bus.Running.{process_node-IsWires}

module _ (s : Plan) where
  -- Nodes, edges and ports fit together.
  abbrev pub IsBus : Bus → Type 0
  IsBus b = Every (λ n. IsNode s n.myid n) b.nodes × IsWires s b.wires

  pass_channels-IsEdge :
      (width total : ℕ) (ins outs : List (Option MsgPack))
      → Every (IsGoodOr s) ins
      → Every (IsGoodOr s) outs
      → (length (pass_channels width total ins outs).0 ≡ length ins)
        × Every (IsGoodOr s) (pass_channels width total ins outs).0
        × Every (IsGoodOr s) (pass_channels width total ins outs).1
  unfolding pass_channels
  pass_channels-IsEdge width total [] outs a b = (refl, tt, b)
  pass_channels-IsEdge width total (none ∷ ins) [] a b = (refl, a, tt)
  pass_channels-IsEdge width total (some p ∷ ins) [] a b = (refl, a, tt)
  pass_channels-IsEdge width total (none ∷ ins) (o ∷ outs) a b =
      let (l, i, u) = pass_channels-IsEdge width total ins outs a.1 b.1 in
      (ap suc l, (tt, i), (b.0, u))
  pass_channels-IsEdge width total (some p ∷ ins) (some q ∷ outs) a b =
      let (l, i, u) = pass_channels-IsEdge width total ins outs a.1 b.1 in
      (ap suc l, (a.0, i), (b.0, u))
  pass_channels-IsEdge width total (some p ∷ ins) (none ∷ outs) a b =
      elim (Bool-cases (ltb total width)) [
        | inl room ↦
            ground (arith, pass_channels-IsEdge width (total + length p.data_) ins outs a.1 b.1)
        | inr full ↦ ground (arith, pass_channels-IsEdge width total ins outs a.1 b.1)
      ]

  process_edges-IsEdge :
      (width : ℕ) (edges : List Edge)
      → Every (IsEdge s) edges
      → Every (IsEdge s) (map (process_edge width) edges)
        × (length (map (process_edge width) edges) ≡ length edges)
  unfolding process_edge
  process_edges-IsEdge width [] a = (tt, refl)
  process_edges-IsEdge width (e ∷ es) a =
      let (l, i, o) = pass_channels-IsEdge width 0 e.input e.output a.0.1 a.0.2 in
      let (rest, n) = process_edges-IsEdge width es a.1 in (((l ∙ a.0.0, i, o), rest), ap suc n)

  process_nodes-IsBus :
      (latency : ℕ) (nodes : List Node) (w : Wires)
      → Every (λ n. IsNode s n.myid n) nodes
      → IsWires s w
      → (ns : List Node) × (v : Wires) × (process_nodes s.route latency nodes w ≡ some (ns, v))
        × Every (λ n. IsNode s n.myid n) ns
        × IsWires s v
  unfolding process_nodes
  process_nodes-IsBus latency [] w a u = ([], w, refl, tt, u)
  process_nodes-IsBus latency (n ∷ nodes) w a u =
      let (n', w', run, b, x) = process_node-IsWires s {id = n.myid} latency n w a.0 u in
      let (ns, v, run', c, y) = process_nodes-IsBus latency nodes w' a.1 x in
      let own = subst (λ id. IsNode s id n') (sym b.3) b in
      (n' ∷ ns, v, ground (arith, run, run'), (own, c), y)

  -- A cycle of a bus whose nodes, edges and ports fit together comes to its end, and they fit together
  -- again.
  apply_next_tick-IsBus :
      (latency width : ℕ) (b : Bus)
      → IsBus b
      → (c : Bus) × (apply_next_tick s.route latency width b ≡ some c) × IsBus c
  unfolding apply_next_tick
  apply_next_tick-IsBus latency width b h =
      let (ns, w, run, a, u) = process_nodes-IsBus latency b.nodes b.wires h.0 h.1 in
      let (good, same) = process_edges-IsEdge width w.edges u.1 in
      (
        record { nodes = ns; wires = record w { edges = map (process_edge width) w.edges } },
        ground arith,
        (a, (same ∙ u.0, good, u.2, u.3)),
      )

  -- They fit together, and no message stands twice at a node and no port twice in the map of ports.
  abbrev pub IsSound : Bus → Type 0
  IsSound b = IsBus b × IsKeyedBus b

  -- A cycle of a bus whose nodes, edges and ports fit together, with no message twice at a node and no
  -- port twice, comes to its end, leaves it so, and neither loses a package nor makes one.
  pub apply_next_tick-IsSound :
      (latency width : ℕ) (b : Bus)
      → IsSound b
      → (c : Bus) × (apply_next_tick s.route latency width b ≡ some c)
        × IsSound c
        × (bus_load c ≡ bus_load b)
  apply_next_tick-IsSound latency width b h =
      let (c, run, good) = apply_next_tick-IsBus latency width b h.0 in
      let (same, keyed) = apply_next_tick-load s.route latency width b {c = c} run h.1 in
      (c, run, (good, keyed), same)
