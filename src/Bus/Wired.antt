-- ===== src/Bus/Wired.antt =====
-- Nodes, edges and ports of src/bus/symmulcha.cpp that fit together, so that a cycle of the bus reads no
-- null pointer; and what a node receives.
use nullrvsim.Prelude.{
  ℕ, zero, suc, ◌+◌, ◌%◌, ◌<◌, ◌≡◌, ◌≢◌, refl, ◌∙◌, subst, true, Bool-cases, Option-cases, inl, inr,
  Option, none, some, List, [], ◌∷◌, length, length-set, get_or, set, ◌==◌, if◌then◌else◌, arith,
}
use nullrvsim.Prelude.Assoc.{find, assign, find-assign}
use nullrvsim.Prelude.Sets.{contains}
use nullrvsim.Bus.Packs.{MsgPack}
use nullrvsim.Bus.Node.{
  Edge, Port, Node, Wires, no_edge, take_output, receive_edge, take_send, receive_port, receive,
}
use nullrvsim.Bus.Load.{take_output-in_range}
use nullrvsim.Bus.Every.{
  Every, get_or-Every, set-Every, EveryValue, find-EveryValue, erase-EveryValue,
}

-- How a bus is put together: `ids` has its ports, `home` the nodes of the ports, and `route n t` is
-- route[n][t].
pub record Plan : Type 0 where
  pub channels : ℕ
  pub edge_count : ℕ
  pub ids : List ℕ
  pub home : ℕ → ℕ
  pub route : ℕ → ℕ → ℕ

module _ (s : Plan) where
  -- A package on a channel of the bus, for a port of the bus and its node.
  abbrev pub IsGood : MsgPack → Type 0
  IsGood p = (p.cha < s.channels) × (contains p.dst s.ids ≡ true) × (p.tgt ≡ s.home p.dst)

  abbrev pub IsGoodOr : Option MsgPack → Type 0
  IsGoodOr none = Unit
  IsGoodOr (some p) = IsGood p

  abbrev pub IsEdge : Edge → Type 0
  IsEdge e = (length e.input ≡ s.channels) × Every IsGoodOr e.input × Every IsGoodOr e.output

  abbrev pub IsPort : Port → Type 0
  IsPort q = (length q.recv_buf ≡ s.channels) × Every (Every IsGood) q.send_buf

  -- A node has its ports, an edge for the way to every other node, and nothing for itself in its pipeline.
  abbrev pub IsNode : ℕ → Node → Type 0
  IsNode id n =
      ((d : ℕ) → contains d s.ids ≡ true → s.home d ≡ id → contains d n.port ≡ true)
      × ((d : ℕ)
          → contains d s.ids ≡ true
          → s.home d ≢ id
          → (i : ℕ) × (find (s.route id (s.home d)) n.txs ≡ some i) × (i < s.edge_count))
      × Every (λ (x : MsgPack × ℕ). IsGood x.0 × (x.0.tgt ≢ id)) n.pipeline
      × (n.myid ≡ id)

  abbrev pub IsWires : Wires → Type 0
  IsWires w =
      (length w.edges ≡ s.edge_count)
      × Every IsEdge w.edges
      × ((d : ℕ) → contains d s.ids ≡ true → (q : Port) × (find d w.ports ≡ some q))
      × EveryValue IsPort w.ports

  take_output-IsGood :
      (l : List (Option MsgPack)) {p : MsgPack} {left : List (Option MsgPack)}
      → take_output l ≡ some (p, left)
      → Every IsGoodOr l
      → IsGood p × Every IsGoodOr left
  unfolding take_output
  take_output-IsGood [] h e = absurd (ground arith)
  take_output-IsGood (some q ∷ rest) {p} {left} h e =
      let same : (q, none ∷ rest) ≡ (p, left) = ground arith in
      subst (λ (x : MsgPack × List (Option MsgPack)). IsGood x.0 × Every IsGoodOr x.1) same
        (e.0, (tt, e.1))
  take_output-IsGood (none ∷ rest) {p} {left} h e = elim (Option-cases (take_output rest)) [
    | inl f ↦ absurd (ground arith)
    | inr ((q, l), f) ↦
        let later = take_output-IsGood rest {p = q} {left = l} f e.1 in
        let same : (q, none ∷ l) ≡ (p, left) = ground arith in
        subst (λ (x : MsgPack × List (Option MsgPack)). IsGood x.0 × Every IsGoodOr x.1) same
          (later.0, (tt, later.1))
  ]

  take_send-IsGood :
      (l : List (List MsgPack)) {p : MsgPack} {left : List (List MsgPack)}
      → take_send l ≡ some (p, left)
      → Every (Every IsGood) l
      → IsGood p × Every (Every IsGood) left
  unfolding take_send
  take_send-IsGood [] h e = absurd (ground arith)
  take_send-IsGood ((q ∷ qs) ∷ rest) {p} {left} h e =
      let same : (q, qs ∷ rest) ≡ (p, left) = ground arith in
      subst (λ (x : MsgPack × List (List MsgPack)). IsGood x.0 × Every (Every IsGood) x.1) same
        (e.0.0, (e.0.1, e.1))
  take_send-IsGood ([] ∷ rest) {p} {left} h e = elim (Option-cases (take_send rest)) [
    | inl f ↦ absurd (ground arith)
    | inr ((q, l), f) ↦
        let later = take_send-IsGood rest {p = q} {left = l} f e.1 in
        let same : (q, [] ∷ l) ≡ (p, left) = ground arith in
        subst (λ (x : MsgPack × List (List MsgPack)). IsGood x.0 × Every (Every IsGood) x.1) same
          (later.0, (tt, later.1))
  ]

  -- What a node has after it received.
  abbrev pub IsReceived : ℕ → Option MsgPack × Node × Wires → Type 0
  IsReceived id x = IsGoodOr x.0 × IsNode id x.1 × IsWires x.2

  receive_edge-IsWires :
      {id : ℕ} (k : ℕ) (node : Node) (w : Wires) {m : Option MsgPack} {n : Node} {v : Wires}
      → receive_edge k node w ≡ (m, n, v)
      → IsNode id node
      → IsWires w
      → IsReceived id (m, n, v)
  unfolding receive_edge
  receive_edge-IsWires {id} zero node w {m} {n} {v} h a u = subst (IsReceived id) h (tt, a, u)
  receive_edge-IsWires {id} (suc k) node w {m} {n} {v} h a u =
      let i = get_or node.rxs node.rx_ptr 0 in
      let e = get_or w.edges i no_edge in
      elim (Option-cases (take_output e.output)) [
        | inl f ↦
            receive_edge-IsWires k (record node { rx_ptr = (node.rx_ptr + 1) % length node.rxs }) w
              {m = m} {n = n} {v = v} (ground arith) a u
        | inr ((p, left), f) ↦
            let there =
              get_or-Every IsEdge w.edges i no_edge
                (take_output-in_range w.edges i {x = (p, left)} f) u.1 in
            let out = take_output-IsGood e.output {p = p} {left = left} f there.2 in
            let e' = record e { output = left } in
            let same : (some p, node, record w { edges = set w.edges i e' }) ≡ (m, n, v) =
              ground arith in
            subst (IsReceived id) same (
              out.0,
              a,
              (
                length-set w.edges i e' ∙ u.0,
                set-Every IsEdge w.edges i e' (there.0, there.1, out.1) u.1,
                u.2,
                u.3,
              ),
            )
      ]

  -- A port that is there is replaced.
  pub assign-IsWires :
      (w : Wires) (d : ℕ) (q : Port)
      → IsPort q
      → IsWires w
      → IsWires (record w { ports = assign d q w.ports })
  assign-IsWires w d q p u = (
    u.0,
    u.1,
    λ k c. elim (Bool-cases (k == d)) [
      | inl same ↦ (q, ground (arith, find-assign d k q w.ports))
      | inr other ↦ ((u.2 k c).0, ground (arith, find-assign d k q w.ports, (u.2 k c).1))
    ],
    (p, erase-EveryValue IsPort d w.ports u.3),
  )

  receive_port-IsWires :
      {id : ℕ} (k : ℕ) (node : Node) (w : Wires) {m : Option MsgPack} {n : Node} {v : Wires}
      → receive_port k node w ≡ (m, n, v)
      → IsNode id node
      → IsWires w
      → IsReceived id (m, n, v)
  unfolding receive_port
  receive_port-IsWires {id} zero node w h a u = subst (IsReceived id) h (tt, a, u)
  receive_port-IsWires {id} (suc k) node w {m} {n} {v} h a u =
      let d = get_or node.port node.sd_ptr 0 in
      let next = if node.sd_ptr + 1 == length node.port then 0 else node.sd_ptr + 1 in
      let onward =
        receive_port-IsWires {id = id} k (record node { sd_ptr = next }) w {m = m} {n = n}
          {v = v} in
      elim (Option-cases (find d w.ports)) [
        | inl f ↦ onward (ground arith) a u
        | inr (p, f) ↦ elim (Option-cases (take_send p.send_buf)) [
          | inl g ↦ onward (ground arith) a u
          | inr ((q, left), g) ↦
              let there = find-EveryValue IsPort d w.ports {a = p} u.3 f in
              let out = take_send-IsGood p.send_buf {p = q} {left = left} g there.1 in
              let p' = record p { send_buf = left } in
              let same : (some q, node, record w { ports = assign d p' w.ports }) ≡ (m, n, v) =
                ground arith in
              subst (IsReceived id) same (out.0, a, assign-IsWires w d p' (there.0, out.1) u)
        ]
      ]

  pub receive-IsWires :
      {id : ℕ} (node : Node) (w : Wires) {m : Option MsgPack} {n : Node} {v : Wires}
      → receive node w ≡ (m, n, v)
      → IsNode id node
      → IsWires w
      → IsReceived id (m, n, v)
  unfolding receive
  receive-IsWires {id} node w {m} {n} {v} h a u =
      let (o, n', v') = receive_edge (length node.rxs) node w in
      let first =
        receive_edge-IsWires (length node.rxs) node w {m = o} {n = n'} {v = v'} refl a u in
      elim (Option-cases o) [
        | inr (p, f) ↦
            let same : (o, n', v') ≡ (m, n, v) = ground arith in subst (IsReceived id) same first
        | inl f ↦
            receive_port-IsWires (length n'.port) n' v' {m = m} {n = n} {v = v} (ground arith)
              first.1 first.2
      ]
