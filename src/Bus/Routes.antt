-- ===== src/Bus/Routes.antt =====
-- src/bus/routetable.cpp: a table has, for a source and a destination, the next node on the way. The
-- indices stay below the number of nodes, so none of the 32-bit sums wraps. The generators first count
-- a map from index to node, which has as many entries as there are nodes: that check never fails.
use nullrvsim.Prelude.{
  ℕ, zero, suc, ◌+◌, ◌-◌, ◌/◌, ◌%◌, Bool, true, ◌==◌, ◌&&◌, if◌then◌else◌, Option, none, some, List,
  [], ◌∷◌, length, get_or,
}
use nullrvsim.Prelude.Assoc.{find, erase, assign}

abbrev pub BusRouteTable : Type 0
BusRouteTable = List (ℕ × List (ℕ × ℕ))

-- The entries of a source.
abbrev pub routes_of : ℕ → BusRouteTable → List (ℕ × ℕ)
routes_of src table = elim (find src table) [ none ↦ [] | some routes ↦ routes ]

unfoldable pub route_insert : ℕ → ℕ → ℕ → BusRouteTable → BusRouteTable
route_insert src dst next table = assign src (assign dst next (routes_of src table)) table

unfoldable pub route_delete : ℕ → ℕ → BusRouteTable → BusRouteTable
route_delete src dst table = elim (find src table) [
  | none ↦ table
  | some routes ↦
      let left = erase dst routes in
      if length left == 0 then erase src table else assign src left table
]

abbrev pub node : List ℕ → ℕ → ℕ
node nodes i = get_or nodes i 0

-- The inner loop: `k` destinations from the index `idx` on, round the ring. The index at the end comes
-- first.
unfoldable pub insert_run : List ℕ → ℕ → ℕ → ℕ → ℕ → BusRouteTable → ℕ × BusRouteTable
insert_run nodes src next zero idx table = (idx, table)
insert_run nodes src next (suc k) idx table =
    insert_run nodes src next k ((idx + 1) % length nodes)
      (route_insert src (node nodes idx) next table)

-- The loop of genroute_single_ring, with `n` nodes to go.
unfoldable pub single_ring_from : List ℕ → ℕ → ℕ → BusRouteTable → BusRouteTable
single_ring_from nodes zero i table = table
single_ring_from nodes (suc n) i table =
    let idx = (i + 1) % length nodes in
    single_ring_from nodes n (i + 1)
      (insert_run nodes (node nodes i) (node nodes idx) (length nodes - 1) idx table).1

unfoldable pub genroute_single_ring : List ℕ → BusRouteTable
genroute_single_ring nodes = single_ring_from nodes (length nodes) 0 []

-- `while(idx != i)`; `none` when the fuel is out.
unfoldable pub insert_until : ℕ → List ℕ → ℕ → ℕ → ℕ → ℕ → BusRouteTable → Option BusRouteTable
insert_until zero nodes src next i idx table = if idx == i then some table else none
insert_until (suc fuel) nodes src next i idx table =
    let rest =
      insert_until fuel nodes src next i ((idx + 1) % length nodes)
        (route_insert src (node nodes idx) next table) in
    if idx == i then some table else rest

-- One node of genroute_double_ring: half of the ring one way, the rest the other way.
unfoldable pub double_ring_node : List ℕ → ℕ → BusRouteTable → Option BusRouteTable
double_ring_node nodes i table =
    let cnt = length nodes in
    let idx = (i + 1) % cnt in
    let (idx', table') = insert_run nodes (node nodes i) (node nodes idx) (cnt / 2) idx table in
    let next = if i == 0 then node nodes (cnt - 1) else node nodes (i - 1) in
    insert_until cnt nodes (node nodes i) next i idx' table'

unfoldable pub double_ring_from : List ℕ → ℕ → ℕ → BusRouteTable → Option BusRouteTable
double_ring_from nodes zero i table = some table
double_ring_from nodes (suc n) i table = elim (double_ring_node nodes i table) [
  | none ↦ none
  | some t ↦ double_ring_from nodes n (i + 1) t
]

unfoldable pub genroute_double_ring : List ℕ → Option BusRouteTable
genroute_double_ring nodes = double_ring_from nodes (length nodes) 0 []

-- The innermost loop of assert_route_table_valid: the node where the way ends after `max_jmp` hops.
unfoldable pub follow : ℕ → ℕ → ℕ → BusRouteTable → ℕ
follow zero cur dst route = cur
follow (suc max_jmp) cur dst route =
    if cur == dst then cur else elim (find dst (routes_of cur route)) [
      | none ↦ cur
      | some next ↦ follow max_jmp next dst route
    ]

unfoldable pub all_reached : ℕ → ℕ → List ℕ → BusRouteTable → Bool
all_reached max_jmp src [] route = true
all_reached max_jmp src (dst ∷ dsts) route =
    follow max_jmp src dst route == dst && all_reached max_jmp src dsts route

unfoldable pub all_valid : List ℕ → List ℕ → BusRouteTable → Bool
all_valid nodes [] route = true
all_valid nodes (src ∷ srcs) route =
    all_reached (length nodes) src nodes route && all_valid nodes srcs route

-- assert_route_table_valid, as whether every assertion holds.
unfoldable pub assert_route_table_valid : List ℕ → BusRouteTable → Bool
assert_route_table_valid nodes route = all_valid nodes nodes route
