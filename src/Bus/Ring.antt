-- ===== src/Bus/Ring.antt =====
-- The hops in the table of genroute_single_ring (src/bus/routetable.cpp).
use nullrvsim.Prelude.{
  ℕ, zero, suc, ◌+◌, ◌-◌, ◌%◌, ◌≡◌, ◌≢◌, ◌<◌, ◌≤◌, refl, sym, ap, ◌∙◌, subst, some, List, [],
  length, inl, inr, ltb, Bool-cases, arith,
}
use native.Mathlib.Nat.{mod-lt, mod-eq_of_lt, mod-add-mod, add-mod_right}
use native.Mathlib.Decide.{ℕ_discrete}
use nullrvsim.Bus.Routes.{BusRouteTable, node, insert_run, single_ring_from, genroute_single_ring}
use nullrvsim.Bus.Hops.{hop, hop-insert_run, hop-insert_run_other}

-- No node stands twice on the ring.
abbrev pub IsRing : List ℕ → Type 0
IsRing nodes = (a b : ℕ) → a < length nodes → b < length nodes → node nodes a ≡ node nodes b → a ≡ b

-- The nodes behind the neighbour are those of a run from there.
between : (n a b : ℕ) → a < n → b < n → a ≢ b → (m : ℕ) × (m < n - 1) × (((a + 1) % n + m) % n ≡ b)
between n a b h k ne = elim (Bool-cases (ltb a b)) [
  | inl above ↦ (
    b - (a + 1),
    ground arith,
    mod-add-mod (a + 1) n (b - (a + 1)) ∙ ap (λ (t : ℕ). t % n) (ground arith) ∙ mod-eq_of_lt k,
  )
  | inr below ↦ (
    n + b - (a + 1),
    ground arith,
    mod-add-mod (a + 1) n (n + b - (a + 1))
        ∙ ap (λ (t : ℕ). t % n) (ground arith)
        ∙ add-mod_right b n
        ∙ mod-eq_of_lt k,
  )
]

module _ (nodes : List ℕ) (ring : IsRing nodes) where
  single_ring_from-later :
      (n i a d : ℕ) (table : BusRouteTable)
      → a < i
      → i + n ≤ length nodes
      → hop (node nodes a) d (single_ring_from nodes n i table) ≡ hop (node nodes a) d table
  unfolding single_ring_from
  single_ring_from-later zero i a d table h k = refl
  single_ring_from-later (suc n) i a d table h k =
      let idx = (i + 1) % length nodes in
      let next = insert_run nodes (node nodes i) (node nodes idx) (length nodes - 1) idx table in
      single_ring_from-later n (i + 1) a d next.1 (omega arith) (omega arith)
      ∙ hop-insert_run_other nodes (node nodes i) (node nodes idx) (length nodes - 1) idx table
          (node nodes a) d (λ e. absurd (omega (arith, ring a i (omega arith) (omega arith) e)))

  single_ring_from-hop :
      (n i a b : ℕ) (table : BusRouteTable)
      → i ≤ a
      → a < i + n
      → i + n ≤ length nodes
      → b < length nodes
      → a ≢ b
      → hop (node nodes a) (node nodes b) (single_ring_from nodes n i table)
        ≡ some (node nodes ((a + 1) % length nodes))
  unfolding single_ring_from
  single_ring_from-hop zero i a b table h k w v ne = absurd (omega arith)
  single_ring_from-hop (suc n) i a b table h k w v ne =
      let idx = (i + 1) % length nodes in
      let next = insert_run nodes (node nodes i) (node nodes idx) (length nodes - 1) idx table in
      elim (ℕ_discrete a i) [
        | no p ↦
            single_ring_from-hop n (i + 1) a b next.1 (omega arith) (omega arith) (omega arith) v ne
        | yes p ↦
            let (m, short, there) = between (length nodes) i b (omega arith) v (λ e. ne (p ∙ e)) in
            let last : hop (node nodes i) (node nodes b) next.1 ≡ some (node nodes idx) =
              subst (λ j. hop (node nodes i) (node nodes j) next.1 ≡ some (node nodes idx)) there
                (hop-insert_run nodes (node nodes i) (node nodes idx) (length nodes - 1) idx m table
                  short (mod-lt (i + 1) (omega arith))) in
            subst
              (λ x.
                hop (node nodes x) (node nodes b) (single_ring_from nodes n (i + 1) next.1)
                ≡ some (node nodes ((x + 1) % length nodes)))
              (sym p)
              (single_ring_from-later n (i + 1) i (node nodes b) next.1 (omega arith) (omega arith)
                ∙ last)
      ]

  -- On a ring without a node that stands twice, the table sends what is at a node, for any other node
  -- of the ring, to the neighbour.
  pub genroute_single_ring-hop :
      (a b : ℕ)
      → a < length nodes
      → b < length nodes
      → a ≢ b
      → hop (node nodes a) (node nodes b) (genroute_single_ring nodes)
        ≡ some (node nodes ((a + 1) % length nodes))
  unfolding genroute_single_ring
  genroute_single_ring-hop a b h k ne =
      single_ring_from-hop (length nodes) 0 a b [] (omega arith) (omega arith) (omega arith) k ne
