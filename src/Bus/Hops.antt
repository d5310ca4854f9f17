-- ===== src/Bus/Hops.antt =====
-- The hops that a run of insertions (src/bus/routetable.cpp) leaves in the table.
use nullrvsim.Prelude.{
  ℕ, zero, suc, ◌+◌, ◌%◌, ◌≡◌, ◌≢◌, ◌<◌, refl, sym, ap, ◌∙◌, ◌==◌, if◌then◌else◌, Option, some,
  List, length, subst, arith,
}
use nullrvsim.Prelude.Assoc.{find, assign, find-assign}
use native.Mathlib.Nat.{mod-lt, mod-eq_of_lt, mod-add-mod}
use nullrvsim.Bus.Routes.{BusRouteTable, routes_of, route_insert, node, insert_run}

-- The next node for a source and a destination.
abbrev pub hop : ℕ → ℕ → BusRouteTable → Option ℕ
hop src dst table = find dst (routes_of src table)

pub hop-route_insert :
    (src dst next s d : ℕ) (table : BusRouteTable)
    → hop s d (route_insert src dst next table)
      ≡ (if s == src then if d == dst then some next else hop s d table else hop s d table)
unfolding route_insert
hop-route_insert src dst next s d table = ground (
  arith,
  find-assign src s (assign dst next (routes_of src table)) table,
  find-assign dst d next (routes_of src table),
)

module _ (nodes : List ℕ) (src next : ℕ) where
  -- A run changes nothing for another source.
  pub hop-insert_run_other :
      (k idx : ℕ) (table : BusRouteTable) (s d : ℕ)
      → s ≢ src
      → hop s d (insert_run nodes src next k idx table).1 ≡ hop s d table
  unfolding insert_run
  hop-insert_run_other zero idx table s d h = refl
  hop-insert_run_other (suc k) idx table s d h = ground (
    arith,
    hop-insert_run_other k ((idx + 1) % length nodes) (route_insert src (node nodes idx) next table)
        s d h,
    hop-route_insert src (node nodes idx) next s d table,
  )

  -- A destination that has the next node keeps it.
  hop-insert_run_kept :
      (k idx : ℕ) (table : BusRouteTable) (d : ℕ)
      → hop src d table ≡ some next
      → hop src d (insert_run nodes src next k idx table).1 ≡ some next
  unfolding insert_run
  hop-insert_run_kept zero idx table d h = h
  hop-insert_run_kept (suc k) idx table d h =
      hop-insert_run_kept k ((idx + 1) % length nodes)
        (route_insert src (node nodes idx) next table) d
        (ground (arith, hop-route_insert src (node nodes idx) next src d table))

  -- A run reaches the nodes after its first one.
  pub hop-insert_run :
      (k idx m : ℕ) (table : BusRouteTable)
      → m < k
      → idx < length nodes
      → hop src (node nodes ((idx + m) % length nodes)) (insert_run nodes src next k idx table).1
        ≡ some next
  unfolding insert_run
  hop-insert_run zero idx m table h w = absurd (omega arith)
  hop-insert_run (suc k) idx zero table h w =
      subst
        (λ i. hop src (node nodes i) (insert_run nodes src next (suc k) idx table).1 ≡ some next)
        (sym (ap (λ (t : ℕ). t % length nodes) (omega arith) ∙ mod-eq_of_lt w))
        (hop-insert_run_kept k ((idx + 1) % length nodes)
          (route_insert src (node nodes idx) next table) (node nodes idx)
          (ground (arith, hop-route_insert src (node nodes idx) next src (node nodes idx) table)))
  hop-insert_run (suc k) idx (suc m) table h w =
      let n = length nodes in
      let same : ((idx + 1) % n + m) % n ≡ (idx + suc m) % n =
        mod-add-mod (idx + 1) n m ∙ ap (λ (t : ℕ). t % n) (omega arith) in
      subst
        (λ i. hop src (node nodes i) (insert_run nodes src next (suc k) idx table).1 ≡ some next)
        same
        (hop-insert_run k ((idx + 1) % n) m (route_insert src (node nodes idx) next table)
          (omega arith) (mod-lt (idx + 1) (omega arith)))
