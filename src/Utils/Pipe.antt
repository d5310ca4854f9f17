-- ===== src/Utils/Pipe.antt =====
-- src/utils/pipe.hpp: Pipe<T, Depth, InNum, OutNum>. The loops of apply_next_tick are the functions
-- below, each over the number of iterations that are left.
use nullrvsim.Prelude.{
  ℕ, zero, suc, ◌+◌, ◌-◌, Bool, true, false, ◌&&◌, if◌then◌else◌, List, [], ◌∷◌, ◌++◌, length, set,
}
use nullrvsim.Utils.Handshake.{PipePopPort, PipePushPort, shut, opened}

pub record Pipe {ℓ} (T : Type ℓ) : Type ℓ where
  pub outputs : List (PipePopPort T)
  pub inputs : List (PipePushPort T)
  pub fifo : List T
  pub clear_flag : Bool

module _ {ℓ} {T : Type ℓ} where
  abbrev pub shut_all : List (PipePopPort T) → List (PipePopPort T)
  shut_all [] = []
  shut_all (p ∷ ps) = shut p ∷ shut_all ps

  abbrev pub open_all : List (PipePushPort T) → List (PipePushPort T)
  open_all [] = []
  open_all (p ∷ ps) = opened p ∷ open_all ps

  -- The outputs that still have a value move to the front; how many there are comes first.
  unfoldable pub compact :
      List (PipePopPort T) → ℕ → ℕ → List (PipePopPort T) → ℕ × List (PipePopPort T)
  compact [] i remained outs = (remained, outs)
  compact (p ∷ ps) i remained outs =
      let gone = compact ps (suc i) remained (set outs i (shut p)) in
      let kept =
        compact ps (suc i) (suc remained)
          (set outs remained (record { valid = true; value = p.value; accepted = false })) in
      let idle = compact ps (suc i) remained outs in
      if p.valid && p.accepted then gone else if p.valid then kept else idle

  -- 1. What the inputs took goes into the queue.
  unfoldable pub take_inputs : List (PipePushPort T) → List T → List (PipePushPort T) × List T
  take_inputs [] fifo = ([], fifo)
  take_inputs (p ∷ ps) fifo =
      let moved = take_inputs ps (fifo ++ p.value ∷ []) in
      let left = take_inputs ps fifo in
      if p.ready && p.accepted
      then (record p { accepted = false } ∷ moved.0, moved.1)
      else (p ∷ left.0, left.1)

  -- 2. The outputs from the `remained`-th on are filled from the queue; `accepted` stays as it is.
  unfoldable pub fill_outputs : ℕ → List (PipePopPort T) → List T → List (PipePopPort T) × List T
  fill_outputs remained [] fifo = ([], fifo)
  fill_outputs zero (p ∷ ps) [] =
      let rest = fill_outputs zero ps [] in (record p { valid = false } ∷ rest.0, rest.1)
  fill_outputs zero (p ∷ ps) (v ∷ fifo) =
      let rest = fill_outputs zero ps fifo in
      (record p { valid = true; value = v } ∷ rest.0, rest.1)
  fill_outputs (suc remained) (p ∷ ps) fifo =
      let rest = fill_outputs remained ps fifo in (p ∷ rest.0, rest.1)

  -- 3. The first `n` inputs are ready.
  unfoldable pub make_ready : ℕ → List (PipePushPort T) → List (PipePushPort T)
  make_ready n [] = []
  make_ready zero (p ∷ ps) = record p { ready = false } ∷ make_ready zero ps
  make_ready (suc n) (p ∷ ps) = record p { ready = true } ∷ make_ready n ps

  unfoldable pub apply_next_tick : ℕ → Pipe T → Pipe T
  apply_next_tick depth s =
      if s.clear_flag
      then record {
        outputs = shut_all s.outputs;
        inputs = open_all s.inputs;
        fifo = [];
        clear_flag = false;
      }
      else (let (remained, outs) = compact s.outputs 0 0 s.outputs in
          let (inputs, queue) = take_inputs s.inputs s.fifo in
          let (outputs, fifo) = fill_outputs remained outs queue in
          record {
            outputs = outputs;
            inputs = make_ready (depth + length s.inputs - length fifo) inputs;
            fifo = fifo;
            clear_flag = false;
          })

  unfoldable pub clear : Pipe T → Pipe T
  clear s = record s { clear_flag = true }
