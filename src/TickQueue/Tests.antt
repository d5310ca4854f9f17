-- ===== src/TickQueue/Tests.antt =====
-- A small queue through a few cycles, and the theorems at it.
use nullrvsim.Prelude.{ℕ, ◌≡◌, refl, some, [], ◌∷◌, ◌++◌, arith}
use nullrvsim.TickQueue.{
  Queue, replicate, init, buffer_len, push, pop, apply_next_tick, q_to_pop, push_to_pop, push_to_q,
}
use nullrvsim.TickQueue.Inv.{IsValid, after_pop}
use nullrvsim.TickQueue.Model
use nullrvsim.TickQueue.Model.{tick}
use nullrvsim.TickQueue.Refine.{stages, stages-apply_next_tick}
use nullrvsim.TickQueue.Ends.{stages-push}

-- Two pushed entries in a queue for two at each end and one between, round the end of the buffer.
abbrev pushed : Queue ℕ
pushed = record {
  iwid = 2;
  owid = 1;
  qsize = 1;
  len = 16;
  bottom = 15;
  q_bottom = 15;
  push_bottom = 15;
  ptr = 1;
  pop_sz = 0;
  q_sz = 0;
  push_sz = 2;
  buf = 8 ∷ (replicate 14 0 ++ 7 ∷ []);
}

pushed-IsValid : IsValid pushed
pushed-IsValid = omega arith

-- After a cycle the first stands in the output stage and the second in the main queue.
abbrev ready : Queue ℕ
ready = record pushed { q_bottom = 0; push_bottom = 1; pop_sz = 1; q_sz = 1; push_sz = 0 }

ready-apply_next_tick : apply_next_tick pushed ≡ ready
unfolding apply_next_tick q_to_pop push_to_pop push_to_q
ready-apply_next_tick = refl

ready-IsValid : IsValid ready
ready-IsValid = omega arith

init_fresh :
    init 0 2 1 1
    ≡ some (record pushed {
      bottom = 0;
      q_bottom = 0;
      push_bottom = 0;
      ptr = 0;
      push_sz = 0;
      buf = replicate 16 0;
    })
unfolding init buffer_len
init_fresh = refl

stages-apply_next_tick_example : stages 0 (apply_next_tick pushed) ≡ tick 1 1 (stages 0 pushed)
stages-apply_next_tick_example = stages-apply_next_tick 0 pushed-IsValid

stages-push_example :
    ((push 9 ready).0, stages 0 (push 9 ready).1) ≡ Model.push 2 9 (stages 0 ready)
stages-push_example = stages-push 0 9 ready-IsValid

pop-ready : pop ready ≡ some (after_pop ready)
unfolding pop
pop-ready = refl
