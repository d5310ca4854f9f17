-- ===== src/Bus/Node.antt =====
-- src/bus/symmulcha.cpp: process_node of SymmetricMultiChannelBus, what a node of the bus does in a
-- cycle. Edges are named by their place in `edges`, ports by their numbers; the
-- ports of a node stand in the order in which its map is gone through. Statistics are left out. The result
-- is `none` where a package has no port or no edge to go to, or one without its channel, and the source
-- reads through a null pointer or past the end of a vector.
use nullrvsim.Prelude.{
  ℕ, zero, suc, ◌+◌, ◌%◌, ltb, ◌==◌, ◌&&◌, if◌then◌else◌, Option, none, some, List, [], ◌∷◌, ◌++◌,
  length, get_or, set,
}
use nullrvsim.Prelude.Assoc.{find, assign, erase}
use nullrvsim.Prelude.Sets.{contains}
use nullrvsim.Bus.Packs.{MsgPack}

-- EdgeInChannel; a null pointer is `none`, one place for each channel.
pub record Edge : Type 0 where
  pub input : List (Option MsgPack)
  pub output : List (Option MsgPack)

-- PortStruct, one buffer for each channel.
pub record Port : Type 0 where
  pub recv_buf : List (List MsgPack)
  pub send_buf : List (List MsgPack)

-- NodeStruct; PipelinedPack is a pair.
pub record Node : Type 0 where
  pub myid : ℕ
  pub txs : List (ℕ × ℕ)
  pub rxs : List ℕ
  pub rx_ptr : ℕ
  pub pipeline : List (MsgPack × ℕ)
  pub order_buf : List (ℕ × List MsgPack)
  pub port : List ℕ
  pub sd_ptr : ℕ

-- What a node works on besides its own state.
pub record Wires : Type 0 where
  pub edges : List Edge
  pub ports : List (ℕ × Port)

abbrev pub no_edge : Edge
no_edge = record { input = []; output = [] }

-- The first channel with a package, which is taken.
unfoldable pub take_output : List (Option MsgPack) → Option (MsgPack × List (Option MsgPack))
take_output [] = none
take_output (o ∷ rest) =
    let later = take_output rest in
    elim o [
      | some p ↦ some (p, none ∷ rest)
      | none ↦ elim later [ none ↦ none | some (p, left) ↦ some (p, none ∷ left) ]
    ]

-- The loop over the incoming edges, with `k` of them to go.
unfoldable pub receive_edge : ℕ → Node → Wires → Option MsgPack × Node × Wires
receive_edge zero node w = (none, node, w)
receive_edge (suc k) node w =
    let i = get_or node.rxs node.rx_ptr 0 in
    let e = get_or w.edges i no_edge in
    let rest = receive_edge k (record node { rx_ptr = (node.rx_ptr + 1) % length node.rxs }) w in
    elim (take_output e.output) [
      | some (p, left) ↦
          (some p, node, record w { edges = set w.edges i (record e { output = left }) })
      | none ↦ rest
    ]

-- The first channel with a package to send, which is taken.
unfoldable pub take_send : List (List MsgPack) → Option (MsgPack × List (List MsgPack))
take_send [] = none
take_send (l ∷ rest) =
    let later = take_send rest in
    elim l [
      | p ∷ ps ↦ some (p, ps ∷ rest)
      | [] ↦ elim later [ none ↦ none | some (p, left) ↦ some (p, [] ∷ left) ]
    ]

-- The loop over the ports of the node, with `k` of them to go.
unfoldable pub receive_port : ℕ → Node → Wires → Option MsgPack × Node × Wires
receive_port zero node w = (none, node, w)
receive_port (suc k) node w =
    let id = get_or node.port node.sd_ptr 0 in
    let next = if node.sd_ptr + 1 == length node.port then 0 else node.sd_ptr + 1 in
    let rest = receive_port k (record node { sd_ptr = next }) w in
    elim (find id w.ports) [
      | none ↦ rest
      | some p ↦ elim (take_send p.send_buf) [
        | some (m, left) ↦
            (some m, node, record w { ports = assign id (record p { send_buf = left }) w.ports })
        | none ↦ rest
      ]
    ]

-- An edge comes before a port.
unfoldable pub receive : Node → Wires → Option MsgPack × Node × Wires
receive node w =
    let (m, n, v) = receive_edge (length node.rxs) node w in
    elim m as (λ _. Option MsgPack × Node × Wires) [
      | some p ↦ (some p, n, v)
      | none ↦ receive_port (length n.port) n v
    ]

-- A package goes before the first of the packages that wait whose index is not smaller.
unfoldable pub order_insert : MsgPack → List MsgPack → List MsgPack
order_insert p [] = p ∷ []
order_insert p (x ∷ l) =
    let rest = order_insert p l in if ltb x.pac_idx p.pac_idx then x ∷ rest else p ∷ x ∷ l

-- `recv_buf[cha]` of a port of the node gets packages; `own` has the node's ports.
unfoldable pub hand_over : List ℕ → ℕ → ℕ → List MsgPack → Wires → Option Wires
hand_over own dst cha packs w = elim (if contains dst own then find dst w.ports else none) [
  | none ↦ none
  | some p ↦
      let buf = get_or p.recv_buf cha [] in
      if ltb cha (length p.recv_buf)
      then some (record w {
        ports = assign dst (record p { recv_buf = set p.recv_buf cha (buf ++ packs) }) w.ports;
      })
      else none
]

abbrev pub waiting : ℕ → Node → List MsgPack
waiting xmt node = elim (find xmt node.order_buf) [ none ↦ [] | some l ↦ l ]

-- A package that has reached its node: the packages of a message wait until all are there.
unfoldable pub arrive : MsgPack → Node → Wires → Option (Node × Wires)
arrive p node w =
    let l = order_insert p (waiting p.xmtid node) in
    if ltb 1 p.pac_cnt
    then (if length l == p.pac_cnt
        then elim (hand_over node.port p.dst p.cha l w) [
          | none ↦ none
          | some v ↦ some (record node { order_buf = erase p.xmtid node.order_buf }, v)
        ]
        else some (record node { order_buf = assign p.xmtid l node.order_buf }, w))
    else elim (hand_over node.port p.dst p.cha (p ∷ []) w) [ none ↦ none | some v ↦ some (node, v) ]

-- What a loop over the pipeline leaves: the pipeline and the edges.
abbrev pub Advanced : Type 0
Advanced = Option (List (MsgPack × ℕ) × List Edge)

-- The loop over the pipeline at an entry with its cycles; `next` is the loop over the entries behind it.
-- An entry that has more than one cycle to wait is counted down, and `continue` comes back to it.
unfoldable pub advance_at :
    (ℕ → ℕ) → List (ℕ × ℕ) → MsgPack → ℕ → List Edge → (List Edge → Advanced) → Advanced
advance_at route txs p (suc (suc cycles)) edges next =
    advance_at route txs p (suc cycles) edges next
advance_at route txs p (suc zero) edges next = advance_at route txs p zero edges next
advance_at route txs p zero edges next = elim (find (route p.tgt) txs) [
  | none ↦ none
  | some i ↦
      let e = get_or edges i no_edge in
      let moved = next (set edges i (record e { input = set e.input p.cha (some p) })) in
      let stays = elim (next edges) as (λ _. Advanced) [
        | none ↦ none
        | some (left, es) ↦ some ((p, 0) ∷ left, es)
      ] in
      if ltb i (length edges) && ltb p.cha (length e.input)
      then elim (get_or e.input p.cha none) [ none ↦ moved | some other ↦ stays ]
      else none
]

-- The loop over the pipeline; `route` is what the route table has for a target.
unfoldable pub advance : (ℕ → ℕ) → List (ℕ × ℕ) → List (MsgPack × ℕ) → List Edge → Advanced
advance route txs [] edges = some ([], edges)
advance route txs ((p, cycles) ∷ rest) edges =
    advance_at route txs p cycles edges (advance route txs rest)

-- A package that was received stays at the node or goes into its pipeline.
unfoldable pub accept : ℕ → MsgPack → Node → Wires → Option (Node × Wires)
accept route_latency p node w =
    if p.tgt == node.myid
    then arrive p node w
    else some (record node { pipeline = node.pipeline ++ (p, route_latency) ∷ [] }, w)

unfoldable pub process_node : (ℕ → ℕ) → ℕ → Node → Wires → Option (Node × Wires)
process_node route route_latency node w =
    let (m, n, v) = receive node w in
    let received = elim m as (λ _. Option (Node × Wires)) [
      | none ↦ some (n, v)
      | some p ↦ accept route_latency p n v
    ] in
    elim received [
      | none ↦ none
      | some (n', v') ↦ elim (advance route n'.txs n'.pipeline v'.edges) [
        | none ↦ none
        | some (left, es) ↦ some (record n' { pipeline = left }, record v' { edges = es })
      ]
    ]
