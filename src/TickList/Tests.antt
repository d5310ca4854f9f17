-- ===== src/TickList/Tests.antt =====
-- A list of three entries at most, two of them new, and the theorems at it.
use nullrvsim.Prelude.{ℕ, ◌≡◌, refl, List, [], ◌∷◌, arith}
use nullrvsim.TickList.Limited.{
  Limited, can_push, push_next_tick, apply_next_tick, pop_front, clear_to,
}
use nullrvsim.TickList.Keyed.{Keyed}
use nullrvsim.TickList.Bounded.{
  Call, call_push, call_apply, call_pop, call_clear_to, run, step, IsBounded, run-IsBounded,
}

abbrev two_new : Limited ℕ
two_new = record { iwid = 2; qsize = 3; push_buf = 5 ∷ 6 ∷ []; q = [] }

abbrev script : List (Call ℕ)
script =
    call_push 7
    ∷ call_apply
    ∷ call_push 8
    ∷ call_push 9
    ∷ call_pop
    ∷ call_apply
    ∷ call_clear_to []
    ∷ call_push 4
    ∷ []

-- 7 and 9 are refused: the input is full, then the list.
run-script : run script two_new ≡ record { iwid = 2; qsize = 3; push_buf = 4 ∷ []; q = [] }
unfolding run step can_push push_next_tick apply_next_tick pop_front clear_to
run-script = refl

two_new-IsBounded : IsBounded two_new
two_new-IsBounded = omega arith

run-IsBounded_example : IsBounded (run script two_new)
run-IsBounded_example = run-IsBounded script two_new two_new-IsBounded

abbrev pending : Keyed ℕ
pending = record { push_buf = (1, 11) ∷ []; m = (1, 10) ∷ (2, 20) ∷ [] }
