-- ===== src/Bus/BothWays.antt =====
-- The two runs that genroute_double_ring (src/bus/routetable.cpp) makes for a node.
use nullrvsim.Prelude.{
  ℕ, zero, suc, ◌+◌, ◌-◌, ◌/◌, ◌%◌, ◌≡◌, ◌≢◌, ◌<◌, ◌≤◌, refl, sym, ap, ◌∙◌, subst, ◌==◌,
  if◌then◌else◌, ltb, some, List, length, Bool-cases, inl, inr, arith,
}
use native.Mathlib.Nat.{mod-lt, mod-eq_of_lt, mod-add-mod, add-mod_right}
use nullrvsim.Bus.Routes.{
  BusRouteTable, node, route_insert, insert_run, insert_until, double_ring_node,
}
use nullrvsim.Bus.Hops.{hop, hop-route_insert, hop-insert_run, hop-insert_run_other}
use nullrvsim.Bus.Ring.{IsRing}
use nullrvsim.Bus.DoubleRing.{insert_run-index}

-- Once round the ring at most.
pub mod-wrap : (n x : ℕ) → x < n + n → x % n ≡ (if ltb x n then x else x - n)
mod-wrap n x h = elim (Bool-cases (ltb x n)) [
  | inl below ↦ rw below (mod-eq_of_lt (ground arith))
  | inr above ↦
      let split : x ≡ x - n + n = ground arith in
      rw above (ap (λ (t : ℕ). t % n) split ∙ add-mod_right (x - n) n ∙ mod-eq_of_lt (ground arith))
]

-- Two different distances lead to two different places.
mod-distance : (n c a b : ℕ) → c < n → a < n → b < n → a ≢ b → (c + a) % n ≢ (c + b) % n
mod-distance n c a b h k l ne e =
    ground (arith, mod-wrap n (c + a) (omega arith), mod-wrap n (c + b) (omega arith))

-- The loop that runs until the index is back makes a run of known length.
insert_until-run :
    (fuel : ℕ) (nodes : List ℕ) (src next i idx m : ℕ) (table : BusRouteTable)
    → idx < length nodes
    → m < length nodes
    → (idx + m) % length nodes ≡ i
    → m ≤ fuel
    → insert_until fuel nodes src next i idx table ≡ some (insert_run nodes src next m idx table).1
unfolding insert_until insert_run
insert_until-run zero nodes src next i idx zero table h s e k =
    let back : idx ≡ i =
      sym (mod-eq_of_lt h) ∙ ap (λ (t : ℕ). t % length nodes) (omega arith) ∙ e in
    ground arith
insert_until-run (suc fuel) nodes src next i idx zero table h s e k =
    let back : idx ≡ i =
      sym (mod-eq_of_lt h) ∙ ap (λ (t : ℕ). t % length nodes) (omega arith) ∙ e in
    ground arith
insert_until-run zero nodes src next i idx (suc m) table h s e k = absurd (omega arith)
insert_until-run (suc fuel) nodes src next i idx (suc m) table h s e k =
    let n = length nodes in
    let away : idx ≢ i = λ q. absurd (ground (arith, mod-wrap n (idx + suc m) (omega arith))) in
    ground (
      arith,
      away,
      insert_until-run fuel nodes src next i ((idx + 1) % n) m
          (route_insert src (node nodes idx) next table) (mod-lt (idx + 1) (omega arith))
          (omega arith) (mod-add-mod (idx + 1) n m ∙ ap (λ (t : ℕ). t % n) (omega arith) ∙ e)
          (omega arith),
    )

-- A run passes over a destination that it does not reach.
hop-insert_run_skip :
    (nodes : List ℕ) (src next k idx : ℕ) (table : BusRouteTable) (d : ℕ)
    → ((j : ℕ) → j < k → node nodes ((idx + j) % length nodes) ≢ d)
    → idx < length nodes
    → hop src d (insert_run nodes src next k idx table).1 ≡ hop src d table
unfolding insert_run
hop-insert_run_skip nodes src next zero idx table d h w = refl
hop-insert_run_skip nodes src next (suc k) idx table d h w =
    let n = length nodes in
    let here : node nodes idx ≢ d = λ e.
      h 0 (omega arith)
        (ap (node nodes) (ap (λ (t : ℕ). t % n) (omega arith) ∙ mod-eq_of_lt w) ∙ e) in
    ground (
      arith,
      here,
      hop-route_insert src (node nodes idx) next src d table,
      hop-insert_run_skip nodes src next k ((idx + 1) % n)
          (route_insert src (node nodes idx) next table) d
          (λ j b e. h (suc j) (omega arith) (
            ap (node nodes) (ap (λ (t : ℕ). t % n) (omega arith) ∙ sym (mod-add-mod (idx + 1) n j))
            ∙ e))
          (mod-lt (idx + 1) (omega arith)),
    )

-- The neighbour behind.
abbrev pub behind : ℕ → ℕ → ℕ
behind n i = if i == 0 then n - 1 else i - 1

module _ (nodes : List ℕ) (ring : IsRing nodes) where
  -- The two runs of a node.
  ahead_run : ℕ → BusRouteTable → ℕ × BusRouteTable
  ahead_run i table =
      insert_run nodes (node nodes i) (node nodes ((i + 1) % length nodes)) (length nodes / 2)
        ((i + 1) % length nodes) table

  pub both_runs : ℕ → BusRouteTable → BusRouteTable
  both_runs i table =
      (insert_run nodes (node nodes i) (node nodes (behind (length nodes) i))
        (length nodes - (1 + length nodes / 2)) (ahead_run i table).0 (ahead_run i table).1).1

  ahead_run-index :
      (i : ℕ) (table : BusRouteTable)
      → i < length nodes
      → (ahead_run i table).0 ≡ ((i + 1) % length nodes + length nodes / 2) % length nodes
  unfolding ahead_run
  ahead_run-index i table h =
      insert_run-index nodes (node nodes i) (node nodes ((i + 1) % length nodes)) (length nodes / 2)
        ((i + 1) % length nodes) table (mod-lt (i + 1) (omega arith))

  pub double_ring_node-runs :
      (i : ℕ) (table : BusRouteTable)
      → i < length nodes
      → double_ring_node nodes i table ≡ some (both_runs i table)
  unfolding double_ring_node both_runs ahead_run
  double_ring_node-runs i table h =
      let n = length nodes in
      let c = (i + 1) % n in
      let left = n - (1 + n / 2) in
      let run = insert_run nodes (node nodes i) (node nodes c) (n / 2) c table in
      let at : run.0 ≡ (c + n / 2) % n = ahead_run-index i table h in
      let next : (if i == 0 then node nodes (n - 1) else node nodes (i - 1))
          ≡ node nodes (behind n i) =
        ground arith in
      ap (λ (x : ℕ). insert_until n nodes (node nodes i) x i run.0 run.1) next
      ∙ insert_until-run n nodes (node nodes i) (node nodes (behind n i)) i run.0 left run.1
          (subst (λ (t : ℕ). t < n) (sym at) (mod-lt (c + n / 2) (omega arith))) (omega arith)
          (ap (λ (t : ℕ). (t + left) % n) at
            ∙ mod-add-mod (c + n / 2) n left
            ∙ ap (λ (t : ℕ). t % n) (omega arith)
            ∙ mod-add-mod (i + 1) n (n / 2 + left)
            ∙ ap (λ (t : ℕ). t % n) (omega arith)
            ∙ add-mod_right i n
            ∙ mod-eq_of_lt h)
          (omega arith)

  pub hop-both_runs_other :
      (i : ℕ) (table : BusRouteTable) (s d : ℕ)
      → s ≢ node nodes i
      → hop s d (both_runs i table) ≡ hop s d table
  unfolding both_runs ahead_run
  hop-both_runs_other i table s d ne =
      hop-insert_run_other nodes (node nodes i) (node nodes (behind (length nodes) i))
        (length nodes - (1 + length nodes / 2)) (ahead_run i table).0 (ahead_run i table).1 s d ne
      ∙ hop-insert_run_other nodes (node nodes i) (node nodes ((i + 1) % length nodes))
          (length nodes / 2) ((i + 1) % length nodes) table s d ne

  -- The next hop to the node `m` places behind the neighbour.
  pub hop-both_runs :
      (i m : ℕ) (table : BusRouteTable)
      → i < length nodes
      → m < length nodes - 1
      → hop
          (node nodes i)
          (node nodes (((i + 1) % length nodes + m) % length nodes))
          (both_runs i table)
        ≡ some (
            if ltb m (length nodes / 2)
            then node nodes ((i + 1) % length nodes)
            else node nodes (behind (length nodes) i))
  unfolding both_runs ahead_run
  hop-both_runs i m table h k =
      let n = length nodes in
      let c = (i + 1) % n in
      let left = n - (1 + n / 2) in
      let front : c < n = mod-lt (i + 1) (omega arith) in
      let run = ahead_run i table in
      let at = ahead_run-index i table h in
      let inside : run.0 < n =
        subst (λ (t : ℕ). t < n) (sym at) (mod-lt (c + n / 2) (omega arith)) in
      let shifted : (j : ℕ) → (run.0 + j) % n ≡ (c + (n / 2 + j)) % n = λ j.
        ap (λ (t : ℕ). (t + j) % n) at
        ∙ mod-add-mod (c + n / 2) n j
        ∙ ap (λ (t : ℕ). t % n) (omega arith) in
      elim (Bool-cases (ltb m (n / 2))) [
        | inl near ↦
            let passed : hop (node nodes i) (node nodes ((c + m) % n)) (both_runs i table)
                ≡ hop (node nodes i) (node nodes ((c + m) % n)) run.1 =
              hop-insert_run_skip nodes (node nodes i) (node nodes (behind n i)) left run.0 run.1
                (node nodes ((c + m) % n))
                (λ j b e.
                  mod-distance n c (n / 2 + j) m front (omega arith) (omega arith) (ground arith) (
                    sym (shifted j)
                    ∙ ring ((run.0 + j) % n) ((c + m) % n) (mod-lt (run.0 + j) (omega arith))
                        (mod-lt (c + m) (omega arith)) e))
                inside in
            let reached : hop (node nodes i) (node nodes ((c + m) % n)) run.1
                ≡ some (node nodes c) =
              hop-insert_run nodes (node nodes i) (node nodes c) (n / 2) c m table (ground arith)
                front in
            passed ∙ reached ∙ rw near refl
        | inr far ↦
            let place : (run.0 + (m - n / 2)) % n ≡ (c + m) % n =
              shifted (m - n / 2) ∙ ap (λ (t : ℕ). (c + t) % n) (ground arith) in
            subst
              (λ x.
                hop (node nodes i) (node nodes x) (both_runs i table)
                ≡ some (node nodes (behind n i)))
              place
              (hop-insert_run nodes (node nodes i) (node nodes (behind n i)) left run.0 (m - n / 2)
                run.1 (ground arith) inside)
            ∙ rw far refl
      ]
