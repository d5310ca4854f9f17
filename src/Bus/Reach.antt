-- ===== src/Bus/Reach.antt =====
-- assert_route_table_valid (src/bus/routetable.cpp) and the table of genroute_single_ring.
use nullrvsim.Prelude.{
  ℕ, zero, suc, ◌+◌, ◌-◌, ◌%◌, ◌≡◌, ◌≢◌, ◌<◌, ◌≤◌, refl, sym, ap, ◌∙◌, subst, true, List, [], ◌∷◌,
  length, ltb, Bool-cases, inl, inr, ==_of_eq, arith,
}
use native.Mathlib.Nat.{mod-lt, mod-eq_of_lt, mod-add-mod, add-mod_right}
use native.Mathlib.Decide.{ℕ_discrete}
use nullrvsim.Bus.Routes.{
  BusRouteTable, node, genroute_single_ring, follow, all_reached, all_valid,
  assert_route_table_valid,
}
use nullrvsim.Bus.Ring.{IsRing, genroute_single_ring-hop}

moved : (n a m b : ℕ) → a < n → (a + m) % n ≡ b → a ≢ b → 0 < m
moved n a zero b h e ne =
    absurd (ne (sym (mod-eq_of_lt h) ∙ ap (λ (t : ℕ). t % n) (omega arith) ∙ e))
moved n a (suc m) b h e ne = omega arith

-- A check of every element of a list.
pub all_reached-nodes :
    (max_jmp src : ℕ) (dsts : List ℕ) (route : BusRouteTable)
    → ((j : ℕ) → j < length dsts → follow max_jmp src (node dsts j) route ≡ node dsts j)
    → all_reached max_jmp src dsts route ≡ true
unfolding all_reached
all_reached-nodes max_jmp src [] route h = refl
all_reached-nodes max_jmp src (dst ∷ dsts) route h = ground (
  arith,
  h 0 (omega arith),
  all_reached-nodes max_jmp src dsts route (λ j k. h (suc j) (omega arith)),
)

pub all_valid-nodes :
    (nodes srcs : List ℕ) (route : BusRouteTable)
    → ((i : ℕ) → i < length srcs → all_reached (length nodes) (node srcs i) nodes route ≡ true)
    → all_valid nodes srcs route ≡ true
unfolding all_valid
all_valid-nodes nodes [] route h = refl
all_valid-nodes nodes (src ∷ srcs) route h =
    ground
      (arith, h 0 (omega arith), all_valid-nodes nodes srcs route (λ i k. h (suc i) (omega arith)))

module _ (nodes : List ℕ) (ring : IsRing nodes) where
  -- From a node, the node `m` places further is reached in `m` hops.
  follow-single_ring :
      (fuel a b m : ℕ)
      → a < length nodes
      → (a + m) % length nodes ≡ b
      → m ≤ fuel
      → follow fuel (node nodes a) (node nodes b) (genroute_single_ring nodes) ≡ node nodes b
  unfolding follow
  follow-single_ring zero a b m h e k =
      ap (node nodes) (sym (mod-eq_of_lt h) ∙ ap (λ (t : ℕ). t % length nodes) (omega arith) ∙ e)
  follow-single_ring (suc fuel) a b m h e k = elim (ℕ_discrete (node nodes a) (node nodes b)) [
    | yes p ↦ rw (==_of_eq (node nodes a) (node nodes b) p) p
    | no p ↦
        let n = length nodes in
        let inside : b < n = subst (λ (t : ℕ). t < n) e (mod-lt (a + m) (omega arith)) in
        let apart : a ≢ b = λ q. p (ap (node nodes) q) in
        let further : 0 < m = moved n a m b h e apart in
        let rest =
          follow-single_ring fuel ((a + 1) % n) b (m - 1) (mod-lt (a + 1) (omega arith))
            (mod-add-mod (a + 1) n (m - 1) ∙ ap (λ (t : ℕ). t % n) (omega arith) ∙ e)
            (omega arith) in
        ground (arith, genroute_single_ring-hop nodes ring a b h inside apart, rest)
  ]

  distance : (n a b : ℕ) → a < n → b < n → (m : ℕ) × (m ≤ n) × ((a + m) % n ≡ b)
  distance n a b h k = elim (Bool-cases (ltb a b)) [
    | inl above ↦ (b - a, ground arith, ap (λ (t : ℕ). t % n) (ground arith) ∙ mod-eq_of_lt k)
    | inr below ↦ (
      n + b - a,
      ground arith,
      ap (λ (t : ℕ). t % n) (ground arith) ∙ add-mod_right b n ∙ mod-eq_of_lt k,
    )
  ]

  -- On a ring without a node that stands twice, the hops of the table lead from any node to any other
  -- in at most as many steps as there are nodes.
  pub follow-genroute_single_ring :
      (a b : ℕ)
      → a < length nodes
      → b < length nodes
      → follow (length nodes) (node nodes a) (node nodes b) (genroute_single_ring nodes)
        ≡ node nodes b
  follow-genroute_single_ring a b h k =
      let (m, short, there) = distance (length nodes) a b h k in
      follow-single_ring (length nodes) a b m h there short

  -- The table of a ring on which no node stands twice passes assert_route_table_valid.
  pub genroute_single_ring-valid :
      assert_route_table_valid nodes (genroute_single_ring nodes) ≡ true
  unfolding assert_route_table_valid
  genroute_single_ring-valid = all_valid-nodes nodes nodes (genroute_single_ring nodes) (λ a h.
      all_reached-nodes (length nodes) (node nodes a) nodes (genroute_single_ring nodes)
        (λ b k. follow-genroute_single_ring a b h k))
