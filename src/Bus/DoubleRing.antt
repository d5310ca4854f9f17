-- ===== src/Bus/DoubleRing.antt =====
-- The loops of genroute_double_ring (src/bus/routetable.cpp).
use nullrvsim.Prelude.{
  ℕ, zero, suc, ◌+◌, ◌-◌, ◌/◌, ◌%◌, ◌≡◌, ◌<◌, ◌≤◌, refl, sym, ap, ◌∙◌, subst, Bool, true, false,
  ◌==◌, if◌then◌else◌, Option, none, some, Option-cases, inl, inr, List, length, arith, [],
}
use native.Mathlib.Nat.{mod-lt, mod-eq_of_lt, mod-add-mod, add-mod_right}
use nullrvsim.Bus.Routes.{
  BusRouteTable, node, route_insert, insert_run, insert_until, double_ring_node, double_ring_from,
  genroute_double_ring,
}

abbrev pub terminates : Option BusRouteTable → Bool
terminates none = false
terminates (some t) = true

-- Where the index is after a run.
pub insert_run-index :
    (nodes : List ℕ) (src next k idx : ℕ) (table : BusRouteTable)
    → idx < length nodes
    → (insert_run nodes src next k idx table).0 ≡ (idx + k) % length nodes
unfolding insert_run
insert_run-index nodes src next zero idx table h =
    sym (ap (λ (t : ℕ). t % length nodes) (omega arith) ∙ mod-eq_of_lt h)
insert_run-index nodes src next (suc k) idx table h =
    let n = length nodes in
    insert_run-index nodes src next k ((idx + 1) % n) (route_insert src (node nodes idx) next table)
      (mod-lt (idx + 1) (omega arith))
    ∙ mod-add-mod (idx + 1) n k
    ∙ ap (λ (t : ℕ). t % n) (omega arith)

same_index : (n idx i : ℕ) → idx < n → (idx + 0) % n ≡ i → idx ≡ i
same_index n idx i h e = sym (mod-eq_of_lt h) ∙ ap (λ (t : ℕ). t % n) (omega arith) ∙ e

insert_until-terminates :
    (fuel : ℕ) (nodes : List ℕ) (src next i idx m : ℕ) (table : BusRouteTable)
    → idx < length nodes
    → (idx + m) % length nodes ≡ i
    → m ≤ fuel
    → terminates (insert_until fuel nodes src next i idx table) ≡ true
unfolding insert_until
insert_until-terminates zero nodes src next i idx zero table h e k =
    ground (arith, same_index (length nodes) idx i h e)
insert_until-terminates (suc fuel) nodes src next i idx zero table h e k =
    ground (arith, same_index (length nodes) idx i h e)
insert_until-terminates zero nodes src next i idx (suc m) table h e k = absurd (omega arith)
insert_until-terminates (suc fuel) nodes src next i idx (suc m) table h e k =
    let n = length nodes in
    ground (
      arith,
      insert_until-terminates fuel nodes src next i ((idx + 1) % n) m
          (route_insert src (node nodes idx) next table) (mod-lt (idx + 1) (omega arith))
          (mod-add-mod (idx + 1) n m ∙ ap (λ (t : ℕ). t % n) (omega arith) ∙ e) (omega arith),
    )

double_ring_node-terminates :
    (nodes : List ℕ) (i : ℕ) (table : BusRouteTable)
    → i < length nodes
    → terminates (double_ring_node nodes i table) ≡ true
unfolding double_ring_node
double_ring_node-terminates nodes i table h =
    let n = length nodes in
    let idx = (i + 1) % n in
    let run = insert_run nodes (node nodes i) (node nodes idx) (n / 2) idx table in
    let next = if i == 0 then node nodes (n - 1) else node nodes (i - 1) in
    let left = n - (1 + n / 2) in
    let at : run.0 ≡ (idx + n / 2) % n =
      insert_run-index nodes (node nodes i) (node nodes idx) (n / 2) idx table
        (mod-lt (i + 1) (omega arith)) in
    insert_until-terminates n nodes (node nodes i) next i run.0 left run.1
      (subst (λ (t : ℕ). t < n) (sym at) (mod-lt (idx + n / 2) (omega arith)))
      (ap (λ (t : ℕ). (t + left) % n) at
        ∙ mod-add-mod (idx + n / 2) n left
        ∙ ap (λ (t : ℕ). t % n) (omega arith)
        ∙ mod-add-mod (i + 1) n (n / 2 + left)
        ∙ ap (λ (t : ℕ). t % n) (omega arith)
        ∙ add-mod_right i n
        ∙ mod-eq_of_lt h)
      (omega arith)

double_ring_from-terminates :
    (nodes : List ℕ) (n i : ℕ) (table : BusRouteTable)
    → i + n ≤ length nodes
    → terminates (double_ring_from nodes n i table) ≡ true
unfolding double_ring_from
double_ring_from-terminates nodes zero i table h = refl
double_ring_from-terminates nodes (suc n) i table h =
    elim (Option-cases (double_ring_node nodes i table)) [
      | inl q ↦ absurd (ground (arith, double_ring_node-terminates nodes i table (omega arith)))
      | inr (t, q) ↦ ground (arith, double_ring_from-terminates nodes n (i + 1) t (omega arith))
    ]

-- The loops of genroute_double_ring end on any list of nodes: as much fuel for the inner one as there
-- are nodes is enough.
pub genroute_double_ring-terminates :
    (nodes : List ℕ) → terminates (genroute_double_ring nodes) ≡ true
unfolding genroute_double_ring
genroute_double_ring-terminates nodes =
    double_ring_from-terminates nodes (length nodes) 0 [] (omega arith)
