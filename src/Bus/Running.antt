-- ===== src/Bus/Running.antt =====
-- A cycle of a bus that is put together as its plan says comes to its end, and leaves it so.
use nullrvsim.Prelude.{
  ℕ, ◌<◌, ◌≡◌, ◌≢◌, refl, sym, ◌∙◌, subst, true, Bool-cases, Option-cases, inl, inr, none, some,
  List, [], ◌∷◌, ◌++◌, length, length-set, get_or, set, ltb, lt→ltb, ◌==◌, arith,
}
use native.Mathlib.Decide.{ℕ_discrete}
use nullrvsim.Prelude.Assoc.{find, assign, erase}
use nullrvsim.Prelude.Sets.{contains}
use nullrvsim.Bus.Packs.{MsgPack}
use nullrvsim.Bus.Node.{
  Edge, Node, Wires, no_edge, receive, order_insert, hand_over, waiting, arrive, advance_at,
  advance, accept, process_node,
}
use nullrvsim.Bus.Latency.{advance_at-zero}
use nullrvsim.Bus.Every.{Every, get_or-Every, set-Every, append-Every, find-EveryValue}
use nullrvsim.Bus.Wired.{
  Plan, IsGood, IsGoodOr, IsEdge, IsPort, IsNode, IsWires, assign-IsWires, receive-IsWires,
}

module _ (s : Plan) where
  -- A package in the pipeline of the node `id`.
  abbrev Passes : ℕ → MsgPack × ℕ → Type 0
  Passes id x = IsGood s x.0 × (x.0.tgt ≢ id)

  hand_over-IsWires :
      (own : List ℕ) (dst cha : ℕ) (packs : List MsgPack) (w : Wires)
      → contains dst own ≡ true
      → contains dst s.ids ≡ true
      → cha < s.channels
      → IsWires s w
      → (v : Wires) × (hand_over own dst cha packs w ≡ some v) × IsWires s v
  unfolding hand_over
  hand_over-IsWires own dst cha packs w mine known room u =
      let q = (u.2 dst known).0 in
      let found = (u.2 dst known).1 in
      let fits = find-EveryValue (IsPort s) dst w.ports {a = q} u.3 found in
      let full = set q.recv_buf cha (get_or q.recv_buf cha [] ++ packs) in
      let q' = record q { recv_buf = full } in
      (
        record w { ports = assign dst q' w.ports },
        ground (arith, lt→ltb cha (length q.recv_buf) (omega (arith, fits.0, room))),
        assign-IsWires s w dst q'
            (length-set q.recv_buf cha (get_or q.recv_buf cha [] ++ packs) ∙ fits.0, fits.1) u,
      )

  arrive-IsWires :
      {id : ℕ} (p : MsgPack) (node : Node) (w : Wires)
      → IsGood s p
      → p.tgt ≡ node.myid
      → IsNode s id node
      → IsWires s w
      → (n : Node) × (v : Wires) × (arrive p node w ≡ some (n, v)) × IsNode s id n × IsWires s v
  unfolding arrive
  arrive-IsWires {id} p node w g t a u =
      let l = order_insert p (waiting p.xmtid node) in
      let mine : contains p.dst node.port ≡ true = a.0 p.dst g.1 (sym g.2 ∙ t ∙ a.3) in
      let (v, e, o) = hand_over-IsWires node.port p.dst p.cha l w mine g.1 g.0 u in
      let (v', e', o') = hand_over-IsWires node.port p.dst p.cha (p ∷ []) w mine g.1 g.0 u in
      elim (Bool-cases (ltb 1 p.pac_cnt)) [
        | inr single ↦ (node, v', ground arith, a, o')
        | inl several ↦ elim (Bool-cases (length l == p.pac_cnt)) [
          | inl whole ↦
              (record node { order_buf = erase p.xmtid node.order_buf }, v, ground arith, a, o)
          | inr partly ↦
              (record node { order_buf = assign p.xmtid l node.order_buf }, w, ground arith, a, u)
        ]
      ]

  accept-IsWires :
      {id : ℕ} (latency : ℕ) (p : MsgPack) (node : Node) (w : Wires)
      → IsGood s p
      → IsNode s id node
      → IsWires s w
      → (n : Node) × (v : Wires) × (accept latency p node w ≡ some (n, v))
        × IsNode s id n
        × IsWires s v
  unfolding accept
  accept-IsWires {id} latency p node w g a u = elim (ℕ_discrete p.tgt node.myid) [
    | yes t ↦
        let (n, v, e, b, o) = arrive-IsWires p node w g t a u in (n, v, ground (arith, e), b, o)
    | no t ↦ (
      record node { pipeline = node.pipeline ++ (p, latency) ∷ [] },
      w,
      ground (arith, t),
      (
        a.0,
        a.1,
        append-Every (Passes id) node.pipeline ((p, latency) ∷ []) a.2
            ((g, λ e. t (e ∙ sym a.3)), tt),
        a.3,
      ),
      u,
    )
  ]

  advance-IsEdge :
      {id : ℕ} (n : Node) (ps : List (MsgPack × ℕ)) (edges : List Edge)
      → IsNode s id n
      → Every (Passes id) ps
      → length edges ≡ s.edge_count
      → Every (IsEdge s) edges
      → (left : List (MsgPack × ℕ)) × (es : List Edge) × (advance (s.route id) n.txs ps edges
          ≡ some (left, es))
        × Every (Passes id) left
        × (length es ≡ s.edge_count)
        × Every (IsEdge s) es
  unfolding advance advance_at
  advance-IsEdge {id} n [] edges a b c d = ([], edges, refl, tt, c, d)
  advance-IsEdge {id} n ((p, cycles) ∷ ps) edges a b c d =
      let (i, f, r) = a.1 p.dst b.0.0.1 (λ e. b.0.1 (b.0.0.2 ∙ e)) in
      let way : find (s.route id p.tgt) n.txs ≡ some i = ground (arith, f, b.0.0.2) in
      let e = get_or edges i no_edge in
      let there = get_or-Every (IsEdge s) edges i no_edge (omega (arith, r, c)) d in
      let e' = record e { input = set e.input p.cha (some p) } in
      let in_edges = lt→ltb i (length edges) (omega (arith, r, c)) in
      let in_channels = lt→ltb p.cha (length e.input) (omega (arith, there.0, b.0.0.0)) in
      let skip =
        advance_at-zero (s.route id) n.txs p cycles edges (advance (s.route id) n.txs ps) in
      elim (Option-cases (get_or e.input p.cha none)) [
        | inl free ↦
            let (left, es, run, rest, len, good) =
              advance-IsEdge n ps (set edges i e') a b.1 (length-set edges i e' ∙ c) (
                set-Every (IsEdge s) edges i e'
                  (
                    length-set e.input p.cha (some p) ∙ there.0,
                    set-Every (IsGoodOr s) e.input p.cha (some p) b.0.0 there.1,
                    there.2,
                  )
                  d) in
            (left, es, skip ∙ ground arith, rest, len, good)
        | inr (q, taken) ↦
            let (left, es, run, rest, len, good) = advance-IsEdge n ps edges a b.1 c d in
            ((p, 0) ∷ left, es, skip ∙ ground arith, (b.0, rest), len, good)
      ]

  pub process_node-IsWires :
      {id : ℕ} (latency : ℕ) (node : Node) (w : Wires)
      → IsNode s id node
      → IsWires s w
      → (n : Node) × (v : Wires) × (process_node (s.route id) latency node w ≡ some (n, v))
        × IsNode s id n
        × IsWires s v
  unfolding process_node
  process_node-IsWires {id} latency node w a u =
      let (o, n1, v1) = receive node w in
      let got = receive-IsWires s node w {m = o} {n = n1} {v = v1} refl a u in
      elim (Option-cases o) [
        | inl nothing ↦
            let (left, es, run, passes, len, good) =
              advance-IsEdge {id = id} n1 n1.pipeline v1.edges got.1 got.1.2 got.2.0 got.2.1 in
            (
              record n1 { pipeline = left },
              record v1 { edges = es },
              ground arith,
              (got.1.0, got.1.1, passes, got.1.3),
              (len, good, got.2.2, got.2.3),
            )
        | inr (p, f) ↦
            let g = subst (IsGoodOr s) f got.0 in
            let (n2, v2, run, b, x) = accept-IsWires {id = id} latency p n1 v1 g got.1 got.2 in
            let (left, es, run', passes, len, good) =
              advance-IsEdge {id = id} n2 n2.pipeline v2.edges b b.2 x.0 x.1 in
            (
              record n2 { pipeline = left },
              record v2 { edges = es },
              ground arith,
              (b.0, b.1, passes, b.3),
              (len, good, x.2, x.3),
            )
      ]
