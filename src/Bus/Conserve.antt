-- ===== src/Bus/Conserve.antt =====
-- process_node of src/bus/symmulcha.cpp loses no package and makes none.
use nullrvsim.Prelude.{
  sym, ◌∙◌, ℕ, suc, ◌+◌, ◌≡◌, refl, ap, Bool-cases, Option-cases, inl, inr, Option, none, some,
  List, [], ◌∷◌, ◌++◌, length, length-append, get_or, set, ltb, ◌==◌, ◌&&◌, arith, ltb→lt,
}
use nullrvsim.Prelude.Assoc.{find}
use nullrvsim.Prelude.Sets.{contains}
use nullrvsim.Bus.Packs.{MsgPack}
use nullrvsim.Bus.Node.{
  Edge, Node, Wires, no_edge, receive_edge, receive, order_insert, hand_over, waiting, arrive,
  advance_at, advance, accept, process_node,
}
use nullrvsim.Bus.Latency.{advance_at-zero}
use nullrvsim.Bus.Reorder.{length-order_insert}
use nullrvsim.Bus.Sums.{
  sum, sum-set, sum_values, Unique, value_or, sum_values-erase, sum_values-assign, erase-Unique,
  assign-Unique,
}
use nullrvsim.Bus.Load.{
  held, edge_load, port_load, load, IsKeyed, receive_edge-load, receive_port-load,
}

receive-load :
    (node : Node) (w : Wires) {m : Option MsgPack} {n : Node} {v : Wires}
    → receive node w ≡ (m, n, v)
    → IsKeyed node w
    → (held m + load n v ≡ load node w) × IsKeyed n v
unfolding receive
receive-load node w {m} {n} {v} h u =
    let (o, n', v') = receive_edge (length node.rxs) node w in
    let first = receive_edge-load (length node.rxs) node w {m = o} {n = n'} {v = v'} refl u in
    elim (Option-cases o) [
      | inr (p, f) ↦ ground arith
      | inl f ↦
          let then_ =
            receive_port-load (length n'.port) n' v' {m = m} {n = n} {v = v} (ground arith)
              first.1 in
          (omega (arith, first.0, then_.0, ap held f), then_.1)
    ]

hand_over-load :
    (own : List ℕ) (dst cha : ℕ) (packs : List MsgPack) (w : Wires) {v : Wires}
    → Unique w.ports
    → hand_over own dst cha packs w ≡ some v
    → (sum_values port_load v.ports ≡ sum_values port_load w.ports + length packs)
      × Unique v.ports
      × (v.edges ≡ w.edges)
unfolding hand_over
hand_over-load own dst cha packs w {v} u h = elim (Bool-cases (contains dst own)) [
  | inr other ↦ absurd (ground arith)
  | inl mine ↦ elim (Option-cases (find dst w.ports)) [
    | inl f ↦ absurd (ground arith)
    | inr (p, f) ↦
        let buf = get_or p.recv_buf cha [] in
        let q = record p { recv_buf = set p.recv_buf cha (buf ++ packs) } in
        elim (Bool-cases (ltb cha (length p.recv_buf))) [
          | inr full ↦ absurd (ground arith)
          | inl room ↦ ground (
            arith,
            sum-set length p.recv_buf cha (buf ++ packs) [] (ltb→lt _ _ room),
            length-append buf packs,
            sum_values-assign port_load dst q w.ports u,
            assign-Unique dst q w.ports u,
          )
        ]
  ]
]

arrive-load :
    (p : MsgPack) (node : Node) (w : Wires) {n : Node} {v : Wires}
    → arrive p node w ≡ some (n, v)
    → IsKeyed node w
    → (load n v ≡ suc (load node w)) × IsKeyed n v
unfolding arrive
arrive-load p node w {n} {v} h u =
    let l = order_insert p (waiting p.xmtid node) in
    let longer = length-order_insert p (waiting p.xmtid node) in
    let had : length (waiting p.xmtid node) ≡ value_or length (find p.xmtid node.order_buf) =
      ground arith in
    elim (Bool-cases (ltb 1 p.pac_cnt)) [
      | inr single ↦ elim (Option-cases (hand_over node.port p.dst p.cha (p ∷ []) w)) [
        | inl f ↦ absurd (ground arith)
        | inr (x, f) ↦ ground (arith, hand_over-load node.port p.dst p.cha (p ∷ []) w {v = x} u.1 f)
      ]
      | inl several ↦ elim (Bool-cases (length l == p.pac_cnt)) [
        | inl whole ↦ elim (Option-cases (hand_over node.port p.dst p.cha l w)) [
          | inl f ↦ absurd (ground arith)
          | inr (x, f) ↦ ground (
            arith,
            hand_over-load node.port p.dst p.cha l w {v = x} u.1 f,
            sum_values-erase length p.xmtid node.order_buf u.0,
            erase-Unique p.xmtid node.order_buf u.0,
          )
        ]
        | inr partly ↦ ground (
          arith,
          sum_values-assign length p.xmtid l node.order_buf u.0,
          assign-Unique p.xmtid l node.order_buf u.0,
        )
      ]
    ]

advance-load :
    (route : ℕ → ℕ) (txs : List (ℕ × ℕ)) (ps : List (MsgPack × ℕ)) (edges : List Edge)
    {left : List (MsgPack × ℕ)} {es : List Edge}
    → advance route txs ps edges ≡ some (left, es)
    → length left + sum edge_load es ≡ length ps + sum edge_load edges
unfolding advance advance_at
advance-load route txs [] edges h = ground arith
advance-load route txs ((p, cycles) ∷ ps) edges {left} {es} h =
    let last : advance_at route txs p 0 edges (advance route txs ps) ≡ some (left, es) =
      sym (advance_at-zero route txs p cycles edges (advance route txs ps)) ∙ h in
    elim (Option-cases (find (route p.tgt) txs)) [
      | inl f ↦ absurd (ground arith)
      | inr (i, f) ↦
          let e = get_or edges i no_edge in
          let e' = record e { input = set e.input p.cha (some p) } in
          elim (Bool-cases (ltb i (length edges) && ltb p.cha (length e.input))) [
            | inr out ↦ absurd (ground arith)
            | inl there ↦ elim (Option-cases (get_or e.input p.cha none)) [
              | inl free ↦ ground (
                arith,
                advance-load route txs ps (set edges i e') {left = left} {es = es},
                sum-set held e.input p.cha (some p) none (ltb→lt _ _ (ground arith)),
                sum-set edge_load edges i e' no_edge (ltb→lt _ _ (ground arith)),
              )
              | inr (q, taken) ↦ elim (Option-cases (advance route txs ps edges)) [
                | inl g ↦ absurd (ground arith)
                | inr ((l, x), g) ↦
                    ground (arith, advance-load route txs ps edges {left = l} {es = x} g)
              ]
            ]
          ]
    ]

accept-load :
    (latency : ℕ) (p : MsgPack) (node : Node) (w : Wires) {n : Node} {v : Wires}
    → accept latency p node w ≡ some (n, v)
    → IsKeyed node w
    → (load n v ≡ suc (load node w)) × IsKeyed n v
unfolding accept
accept-load latency p node w {n} {v} h u = elim (Bool-cases (p.tgt == node.myid)) [
  | inl here ↦ arrive-load p node w {n = n} {v = v} (ground arith) u
  | inr there ↦ ground (arith, length-append node.pipeline ((p, latency) ∷ []))
]

-- The second half of a cycle.
advance-node_load :
    (route : ℕ → ℕ) (node : Node) (w : Wires) {left : List (MsgPack × ℕ)} {es : List Edge}
    → advance route node.txs node.pipeline w.edges ≡ some (left, es)
    → load (record node { pipeline = left }) (record w { edges = es }) ≡ load node w
advance-node_load route node w {left} {es} h =
    omega (arith, advance-load route node.txs node.pipeline w.edges {left = left} {es = es} h)

-- When a node's cycle comes to its end, there are as many packages in the node, on the edges and at the
-- ports as before, and again no message and no port stands twice in its map.
pub process_node-load :
    (route : ℕ → ℕ) (latency : ℕ) (node : Node) (w : Wires) {n : Node} {v : Wires}
    → process_node route latency node w ≡ some (n, v)
    → IsKeyed node w
    → (load n v ≡ load node w) × IsKeyed n v
unfolding process_node
process_node-load route latency node w {n} {v} h u =
    let (o, n1, v1) = receive node w in
    let taken = receive-load node w {m = o} {n = n1} {v = v1} refl u in
    elim (Option-cases o) [
      | inl nothing ↦ elim (Option-cases (advance route n1.txs n1.pipeline v1.edges)) [
        | inl g ↦ absurd (ground arith)
        | inr ((left, es), g) ↦
            ground (arith, advance-node_load route n1 v1 {left = left} {es = es} g)
      ]
      | inr (p, f) ↦ elim (Option-cases (accept latency p n1 v1)) [
        | inl g ↦ absurd (ground arith)
        | inr ((n2, v2), a) ↦ elim (Option-cases (advance route n2.txs n2.pipeline v2.edges)) [
          | inl g ↦ absurd (ground arith)
          | inr ((left, es), g) ↦ ground (
            arith,
            accept-load latency p n1 v1 {n = n2} {v = v2} a taken.1,
            advance-node_load route n2 v2 {left = left} {es = es} g,
          )
        ]
      ]
    ]
