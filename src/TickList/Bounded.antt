-- ===== src/TickList/Bounded.antt =====
-- Runs of the containers: the limits of LimitedTickList, and what a key of TickMap holds after a
-- cycle.
use nullrvsim.Prelude.{
  ℕ, ◌+◌, ◌≤◌, ◌≡◌, refl, ap, ◌∙◌, ◌==◌, if◌then◌else◌, none, some, List, [], ◌∷◌, ◌++◌, length,
  length-append, arith, ==_of_eq, ==_of_ne,
}
use native.Mathlib.Decide.{ℕ_discrete}
use nullrvsim.Prelude.Assoc.{find, assign, find-assign_self, find-assign_ne}
use nullrvsim.TickList.Limited.{
  Limited, can_push, push_next_tick, apply_next_tick, pop_front, clear, clear_to,
}
use nullrvsim.TickList.Keyed
use nullrvsim.TickList.Keyed.{Keyed, assign_all}

-- A call of a LimitedTickList that changes it, with the list that clear appends to; a pop of an empty
-- list is left out of a run.
pub data Call {ℓ} (A : Type ℓ) : Type ℓ where
  call_push : A → Call A
  call_apply : Call A
  call_pop : Call A
  call_clear : Call A
  call_clear_to : List A → Call A

module _ {ℓ} {A : Type ℓ} where
  unfoldable pub step : Call A → Limited A → Limited A
  step (call_push v) r = (push_next_tick v r).1
  step call_apply r = apply_next_tick r
  step call_pop r = elim (pop_front r) [ none ↦ r | some s ↦ s ]
  step call_clear r = clear r
  step (call_clear_to to_free) r = (clear_to to_free r).1

  unfoldable pub run : List (Call A) → Limited A → Limited A
  run [] r = r
  run (c ∷ calls) r = run calls (step c r)

  pub record IsBounded (r : Limited A) : Type ℓ where
    pub push_le : length r.push_buf ≤ r.iwid
    pub total_le : length r.q + length r.push_buf ≤ r.qsize

  step-IsBounded : (c : Call A) (r : Limited A) → IsBounded r → IsBounded (step c r)
  unfolding step push_next_tick can_push apply_next_tick pop_front clear clear_to
  step-IsBounded (call_push v) r b = ground (arith, length-append r.push_buf (v ∷ []))
  step-IsBounded call_apply r b = ground (arith, length-append r.q r.push_buf)
  step-IsBounded call_pop r b = ground arith
  step-IsBounded call_clear r b = omega arith
  step-IsBounded (call_clear_to to_free) r b = omega arith

  -- Whatever calls that change the list are made, no cycle takes in more entries than the input width,
  -- and the list never holds more than its size; it starts within both.
  pub run-IsBounded :
      (calls : List (Call A)) (r : Limited A) → IsBounded r → IsBounded (run calls r)
  unfolding run
  run-IsBounded [] r b = b
  run-IsBounded (c ∷ calls) r b = run-IsBounded calls (step c r) (step-IsBounded c r b)

  find-assign :
      (k j : ℕ) (a : A) (m : List (ℕ × A))
      → find k (assign j a m) ≡ (if k == j then some a else find k m)
  find-assign k j a m = elim (ℕ_discrete k j) [
    | yes p ↦ rw (==_of_eq k j p, p) (find-assign_self j a m)
    | no p ↦ rw (==_of_ne k j p) (find-assign_ne j k a m p)
  ]

  assign_all-append :
      (l : List (ℕ × A)) (j : ℕ) (a : A) (m : List (ℕ × A))
      → assign_all (l ++ (j, a) ∷ []) m ≡ assign j a (assign_all l m)
  unfolding assign_all
  assign_all-append [] j a m = refl
  assign_all-append ((i, b) ∷ l) j a m = assign_all-append l j a (assign i b m)

  -- An entry pushed last is what its key holds after the cycle, whatever was pushed or held before;
  -- the other keys hold what they would hold without it.
  pub find-apply_next_tick :
      (k j : ℕ) (a : A) (r : Keyed A)
      → find k (Keyed.apply_next_tick (Keyed.push_next_tick j a r)).m
        ≡ (if k == j then some a else find k (Keyed.apply_next_tick r).m)
  unfolding Keyed.apply_next_tick Keyed.push_next_tick
  find-apply_next_tick k j a r =
      ap (find k) (assign_all-append r.push_buf j a r.m)
      ∙ find-assign k j a (assign_all r.push_buf r.m)
