-- ===== src/Bus/ShortWay.antt =====
-- The ways that the table of genroute_double_ring (src/bus/routetable.cpp) leads along.
use nullrvsim.Prelude.{
  ℕ, zero, suc, ◌+◌, ◌-◌, ◌/◌, ◌%◌, ◌≡◌, ◌<◌, ◌≤◌, refl, sym, ap, ◌∙◌, subst, true, false,
  if◌then◌else◌, ltb, some, List, [], length, Bool-cases, inl, inr, ==_of_eq, arith,
}
use native.Mathlib.Nat.{mod-lt, mod-eq_of_lt, mod-add-mod, add-mod_right}
use native.Mathlib.Decide.{ℕ_discrete}
use nullrvsim.Bus.Routes.{
  BusRouteTable, node, double_ring_from, genroute_double_ring, follow, assert_route_table_valid,
}
use nullrvsim.Bus.Hops.{hop}
use nullrvsim.Bus.Ring.{IsRing}
use nullrvsim.Bus.Reach.{all_reached-nodes, all_valid-nodes}
use nullrvsim.Bus.BothWays.{
  behind, mod-wrap, both_runs, double_ring_node-runs, hop-both_runs, hop-both_runs_other,
}

module _ (nodes : List ℕ) (ring : IsRing nodes) where
  double_ring_from-later :
      (n i a d : ℕ) (table : BusRouteTable) {t : BusRouteTable}
      → a < i
      → i + n ≤ length nodes
      → double_ring_from nodes n i table ≡ some t
      → hop (node nodes a) d t ≡ hop (node nodes a) d table
  unfolding double_ring_from
  double_ring_from-later zero i a d table h k e = ground arith
  double_ring_from-later (suc n) i a d table {t} h k e =
      let step = double_ring_node-runs nodes ring i table (omega arith) in
      double_ring_from-later n (i + 1) a d (both_runs nodes ring i table) {t = t} (omega arith)
        (omega arith) (ground (arith, step))
      ∙ hop-both_runs_other nodes ring i table (node nodes a) d
          (λ q. absurd (omega (arith, ring a i (omega arith) (omega arith) q)))

  abbrev pub next_hop : ℕ → ℕ → ℕ
  next_hop i m =
      if ltb m (length nodes / 2)
      then node nodes ((i + 1) % length nodes)
      else node nodes (behind (length nodes) i)

  double_ring_from-hop :
      (n i a m : ℕ) (table : BusRouteTable) {t : BusRouteTable}
      → i ≤ a
      → a < i + n
      → i + n ≤ length nodes
      → m < length nodes - 1
      → double_ring_from nodes n i table ≡ some t
      → hop (node nodes a) (node nodes (((a + 1) % length nodes + m) % length nodes)) t
        ≡ some (next_hop a m)
  unfolding double_ring_from
  double_ring_from-hop zero i a m table h k w v e = absurd (omega arith)
  double_ring_from-hop (suc n) i a m table {t} h k w v e =
      let step = double_ring_node-runs nodes ring i table (omega arith) in
      let rest : double_ring_from nodes n (i + 1) (both_runs nodes ring i table) ≡ some t =
        ground (arith, step) in
      elim (ℕ_discrete a i) [
        | no p ↦
            double_ring_from-hop n (i + 1) a m (both_runs nodes ring i table) {t = t} (omega arith)
              (omega arith) (omega arith) v rest
        | yes p ↦
            subst
              (λ x.
                hop (node nodes x) (node nodes (((x + 1) % length nodes + m) % length nodes)) t
                ≡ some (next_hop x m))
              (sym p)
              (double_ring_from-later n (i + 1) i
                  (node nodes (((i + 1) % length nodes + m) % length nodes))
                  (both_runs nodes ring i table) {t = t} (omega arith) (omega arith) rest
                ∙ hop-both_runs nodes ring i m table (omega arith) v)
      ]

  module _ (t : BusRouteTable) (made : genroute_double_ring nodes ≡ some t) where
    table-hop :
        (a m : ℕ)
        → a < length nodes
        → m < length nodes - 1
        → hop (node nodes a) (node nodes (((a + 1) % length nodes + m) % length nodes)) t
          ≡ some (next_hop a m)
    unfolding genroute_double_ring
    table-hop a m h k =
        double_ring_from-hop (length nodes) 0 a m [] {t = t} (omega arith) (omega arith)
          (omega arith) k made

    -- Forwards, `m` places.
    follow-ahead :
        (fuel a b m : ℕ)
        → a < length nodes
        → (a + m) % length nodes ≡ b
        → m ≤ length nodes / 2
        → m ≤ fuel
        → follow fuel (node nodes a) (node nodes b) t ≡ node nodes b
    unfolding follow
    follow-ahead zero a b m h e s k =
        ap (node nodes) (sym (mod-eq_of_lt h) ∙ ap (λ (x : ℕ). x % length nodes) (omega arith) ∙ e)
    follow-ahead (suc fuel) a b zero h e s k =
        let same : a ≡ b =
          sym (mod-eq_of_lt h) ∙ ap (λ (x : ℕ). x % length nodes) (omega arith) ∙ e in
        rw (same, ==_of_eq (node nodes b) (node nodes b) refl) refl
    follow-ahead (suc fuel) a b (suc m) h e s k =
        let n = length nodes in
        let place : ((a + 1) % n + m) % n ≡ b =
          mod-add-mod (a + 1) n m ∙ ap (λ (x : ℕ). x % n) (omega arith) ∙ e in
        let next : hop (node nodes a) (node nodes b) t ≡ some (next_hop a m) =
          subst (λ x. hop (node nodes a) (node nodes x) t ≡ some (next_hop a m)) place
            (table-hop a m h (omega arith)) in
        ground (
          arith,
          next,
          follow-ahead fuel ((a + 1) % n) b m (mod-lt (a + 1) (omega arith)) place (omega arith)
              (omega arith),
        )

    -- Backwards, `m` places.
    follow-behind :
        (fuel a b m : ℕ)
        → a < length nodes
        → b < length nodes
        → (b + m) % length nodes ≡ a
        → m + length nodes / 2 < length nodes
        → m ≤ fuel
        → follow fuel (node nodes a) (node nodes b) t ≡ node nodes b
    unfolding follow
    follow-behind zero a b m h k e s w =
        let n = length nodes in
        ap (node nodes) (sym e ∙ ap (λ (x : ℕ). x % n) (omega arith) ∙ mod-eq_of_lt k)
    follow-behind (suc fuel) a b zero h k e s w =
        let n = length nodes in
        let same : a ≡ b = sym e ∙ ap (λ (x : ℕ). x % n) (omega arith) ∙ mod-eq_of_lt k in
        rw (same, ==_of_eq (node nodes b) (node nodes b) refl) refl
    follow-behind (suc fuel) a b (suc m) h k e s w =
        let n = length nodes in
        let ahead = n - (m + 2) in
        let wrapped = mod-wrap n (b + suc m) (omega arith) in
        let place : ((a + 1) % n + ahead) % n ≡ b =
          mod-add-mod (a + 1) n ahead
          ∙ ground (arith, wrapped, mod-wrap n (a + 1 + ahead) (omega arith)) in
        let next : hop (node nodes a) (node nodes b) t ≡ some (next_hop a ahead) =
          subst (λ x. hop (node nodes a) (node nodes x) t ≡ some (next_hop a ahead)) place
            (table-hop a ahead h (omega arith)) in
        let back : (b + m) % n ≡ behind n a =
          ground (arith, wrapped, mod-wrap n (b + m) (omega arith)) in
        let far : ltb ahead (n / 2) ≡ false = ground arith in
        ground (
          arith,
          next,
          far,
          follow-behind fuel (behind n a) b m (ground arith) k back (omega arith) (omega arith),
        )

    follow-within :
        (fuel a b : ℕ)
        → a < length nodes
        → b < length nodes
        → length nodes / 2 ≤ fuel
        → follow fuel (node nodes a) (node nodes b) t ≡ node nodes b
    follow-within fuel a b h k w =
        let n = length nodes in
        elim (Bool-cases (ltb a b)) [
          | inl above ↦
              let ahead : (a + (b - a)) % n ≡ b =
                ap (λ (x : ℕ). x % n) (ground arith) ∙ mod-eq_of_lt k in
              let back : (b + (n + a - b)) % n ≡ a =
                ap (λ (x : ℕ). x % n) (ground arith) ∙ add-mod_right a n ∙ mod-eq_of_lt h in
              elim (Bool-cases (ltb (n / 2) (b - a))) [
                | inl long ↦
                    follow-behind fuel a b (n + a - b) h k back (ground arith) (ground arith)
                | inr short ↦ follow-ahead fuel a b (b - a) h ahead (ground arith) (ground arith)
              ]
          | inr below ↦
              let ahead : (a + (n + b - a)) % n ≡ b =
                ap (λ (x : ℕ). x % n) (ground arith) ∙ add-mod_right b n ∙ mod-eq_of_lt k in
              let back : (b + (a - b)) % n ≡ a =
                ap (λ (x : ℕ). x % n) (ground arith) ∙ mod-eq_of_lt h in
              elim (Bool-cases (ltb (n / 2) (n + b - a))) [
                | inl long ↦ follow-behind fuel a b (a - b) h k back (ground arith) (ground arith)
                | inr short ↦
                    follow-ahead fuel a b (n + b - a) h ahead (ground arith) (ground arith)
              ]
        ]

-- On a ring without a node that stands twice, the table of the double ring, once it is made, passes
-- assert_route_table_valid, and its hops lead from any node to any other in at most half as many
-- steps as there are nodes.
pub genroute_double_ring-valid :
    (nodes : List ℕ) (t : BusRouteTable) (a b : ℕ)
    → IsRing nodes
    → genroute_double_ring nodes ≡ some t
    → a < length nodes
    → b < length nodes
    → (assert_route_table_valid nodes t ≡ true)
      × (follow (length nodes / 2) (node nodes a) (node nodes b) t ≡ node nodes b)
unfolding assert_route_table_valid
genroute_double_ring-valid nodes t a b ring made h k = (
  all_valid-nodes nodes nodes t (λ x p.
      all_reached-nodes (length nodes) (node nodes x) nodes t
        (λ y q. follow-within nodes ring t made (length nodes) x y p q (omega arith))),
  follow-within nodes ring t made (length nodes / 2) a b h k (omega arith),
)
