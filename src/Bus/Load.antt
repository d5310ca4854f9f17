-- ===== src/Bus/Load.antt =====
-- How many packages a node of the bus, its edges and the ports have in a cycle.
use nullrvsim.Prelude.{
  ℕ, zero, suc, ◌+◌, ◌<◌, ◌≡◌, Option-cases, inl, inr, Option, none, some, List, [], ◌∷◌, length,
  get_or, ◌==◌, if◌then◌else◌, arith, ◌%◌,
}
use nullrvsim.Prelude.Assoc.{find}
use nullrvsim.Bus.Packs.{MsgPack}
use nullrvsim.Bus.Node.{
  Edge, Port, Node, Wires, no_edge, take_output, receive_edge, take_send, receive_port,
}
use nullrvsim.Bus.Sums.{sum, sum-set, sum_values, Unique, sum_values-assign, assign-Unique}

abbrev pub held : Option MsgPack → ℕ
held none = 0
held (some p) = 1

abbrev pub edge_load : Edge → ℕ
edge_load e = sum held e.input + sum held e.output

abbrev pub port_load : Port → ℕ
port_load p = sum length p.recv_buf + sum length p.send_buf

-- The packages in the node, on the edges and at the ports.
abbrev pub load : Node → Wires → ℕ
load node w =
    length node.pipeline
    + sum_values length node.order_buf
    + (sum edge_load w.edges + sum_values port_load w.ports)

-- No message and no port stands twice in its map.
abbrev pub IsKeyed : Node → Wires → Type 0
IsKeyed node w = Unique node.order_buf × Unique w.ports

take_output-sum :
    (l : List (Option MsgPack)) {p : MsgPack} {left : List (Option MsgPack)}
    → take_output l ≡ some (p, left)
    → suc (sum held left) ≡ sum held l
unfolding take_output sum
take_output-sum [] h = absurd (ground arith)
take_output-sum (some q ∷ rest) h = ground arith
take_output-sum (none ∷ rest) {p} {left} h = elim (Option-cases (take_output rest)) [
  | inl e ↦ absurd (ground arith)
  | inr ((q, l), e) ↦ ground (arith, take_output-sum rest {p = q} {left = l} e)
]

take_send-sum :
    (l : List (List MsgPack)) {p : MsgPack} {left : List (List MsgPack)}
    → take_send l ≡ some (p, left)
    → suc (sum length left) ≡ sum length l
unfolding take_send sum
take_send-sum [] h = absurd (ground arith)
take_send-sum ((q ∷ qs) ∷ rest) h = ground arith
take_send-sum ([] ∷ rest) {p} {left} h = elim (Option-cases (take_send rest)) [
  | inl e ↦ absurd (ground arith)
  | inr ((q, l), e) ↦ ground (arith, take_send-sum rest {p = q} {left = l} e)
]

-- Only an edge that is there has a package.
pub take_output-in_range :
    (edges : List Edge) (i : ℕ) {x : MsgPack × List (Option MsgPack)}
    → take_output (get_or edges i no_edge).output ≡ some x
    → i < length edges
unfolding take_output
take_output-in_range [] i h = absurd (ground arith)
take_output-in_range (e ∷ es) zero h = omega arith
take_output-in_range (e ∷ es) (suc i) {x} h = omega (arith, take_output-in_range es i {x = x} h)

pub receive_edge-load :
    (k : ℕ) (node : Node) (w : Wires) {m : Option MsgPack} {n : Node} {v : Wires}
    → receive_edge k node w ≡ (m, n, v)
    → IsKeyed node w
    → (held m + load n v ≡ load node w) × IsKeyed n v
unfolding receive_edge
receive_edge-load zero node w h u = ground arith
receive_edge-load (suc k) node w {m} {n} {v} h u =
    let i = get_or node.rxs node.rx_ptr 0 in
    let e = get_or w.edges i no_edge in
    elim (Option-cases (take_output e.output)) [
      | inl f ↦
          receive_edge-load k (record node { rx_ptr = (node.rx_ptr + 1) % length node.rxs }) w
            {m = m} {n = n} {v = v} (ground arith) u
      | inr ((p, left), f) ↦ ground (
        arith,
        take_output-sum e.output {p = p} {left = left} f,
        sum-set edge_load w.edges i (record e { output = left }) no_edge
            (take_output-in_range w.edges i {x = (p, left)} f),
      )
    ]

pub receive_port-load :
    (k : ℕ) (node : Node) (w : Wires) {m : Option MsgPack} {n : Node} {v : Wires}
    → receive_port k node w ≡ (m, n, v)
    → IsKeyed node w
    → (held m + load n v ≡ load node w) × IsKeyed n v
unfolding receive_port
receive_port-load zero node w h u = ground arith
receive_port-load (suc k) node w {m} {n} {v} h u =
    let id = get_or node.port node.sd_ptr 0 in
    let next = if node.sd_ptr + 1 == length node.port then 0 else node.sd_ptr + 1 in
    let onward = receive_port-load k (record node { sd_ptr = next }) w {m = m} {n = n} {v = v} in
    elim (Option-cases (find id w.ports)) [
      | inl f ↦ onward (ground arith) u
      | inr (p, f) ↦ elim (Option-cases (take_send p.send_buf)) [
        | inl g ↦ onward (ground arith) u
        | inr ((q, left), g) ↦ ground (
          arith,
          take_send-sum p.send_buf {p = q} {left = left} g,
          sum_values-assign port_load id (record p { send_buf = left }) w.ports u.1,
          assign-Unique id (record p { send_buf = left }) w.ports u.1,
        )
      ]
    ]
