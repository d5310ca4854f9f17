-- ===== src/Utils/PipeLoss.antt =====
-- What the ports of Pipe (src/utils/pipe.hpp) make of its values.
use nullrvsim.Prelude.{ℕ, ◌≡◌, true, false, List, [], ◌∷◌, arith}
use nullrvsim.Utils.Handshake.{PipePopPort, PipePushPort, push, pop}
use nullrvsim.Utils.Pipe.{Pipe, compact, take_inputs, fill_outputs, make_ready, apply_next_tick}

module _ {ℓ} {T : Type ℓ} where
  -- A pipe with one port on either side.
  abbrev pub single : PipePopPort T → PipePushPort T → List T → Pipe T
  single output input fifo = record {
    outputs = output ∷ [];
    inputs = input ∷ [];
    fifo = fifo;
    clear_flag = false;
  }

  -- As it is constructed, with whatever value the ports have.
  abbrev pub fresh : T → Pipe T
  fresh w =
      single (record { valid = false; value = w; accepted = false })
        (record { ready = true; value = w; accepted = false }) []

  abbrev pub push_first : T → Pipe T → Pipe T
  push_first v s = elim s.inputs [ [] ↦ s | p ∷ ps ↦ record s { inputs = push v p ∷ ps } ]

  abbrev pub pop_first : Pipe T → Pipe T
  pop_first s = elim s.outputs [ [] ↦ s | p ∷ ps ↦ record s { outputs = pop p ∷ ps } ]

  -- A value that is pushed into an empty pipe is still in its input port after the cycle, and the
  -- port is ready again: a push in the next cycle takes its place, and the first value is never
  -- delivered.
  pub apply_next_tick-push_twice :
      (depth : ℕ) (w a b : T)
      → apply_next_tick depth
          (apply_next_tick depth (push_first b (apply_next_tick depth (push_first a (fresh w)))))
        ≡ single
            (record { valid = true; value = b; accepted = false })
            (record { ready = true; value = b; accepted = false })
            []
  unfolding apply_next_tick compact take_inputs fill_outputs make_ready push
  apply_next_tick-push_twice depth w a b = ground arith

  -- After a value was popped, the next value that the queue delivers is marked as accepted: without
  -- another pop it is gone after one cycle.
  pub apply_next_tick-pop :
      (depth : ℕ) (input : PipePushPort T) (x y z : T)
      → input.accepted ≡ false
      → (apply_next_tick depth (
          apply_next_tick depth (
            pop_first (
              single
                (record { valid = true; value = x; accepted = false })
                input
                (y ∷ z ∷ []))))).outputs
        ≡ record { valid = true; value = z; accepted = false } ∷ []
  unfolding apply_next_tick compact take_inputs fill_outputs make_ready pop
  apply_next_tick-pop depth input x y z n = ground arith
