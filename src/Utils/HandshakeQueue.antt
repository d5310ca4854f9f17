-- ===== src/Utils/HandshakeQueue.antt =====
-- SimpleHandshakePipe (src/utils/pipe.hpp) as a queue: what it holds, the oldest first.
use nullrvsim.Prelude.{◌≡◌, not, if◌then◌else◌, List, [], ◌∷◌, ◌++◌}
use nullrvsim.Utils.Handshake.{SimpleHandshakePipe, push, pop}

module _ {ℓ} {T : Type ℓ} where
  abbrev pub content : SimpleHandshakePipe T → List T
  content s =
      (if s.output.valid then s.output.value ∷ [] else [])
      ++ (if s.input.accepted then s.input.value ∷ [] else [])

  -- A push port is ready just when nothing waits in it.
  abbrev pub IsPaired : SimpleHandshakePipe T → Type 0
  IsPaired s = s.input.ready ≡ not s.input.accepted

  abbrev pub push_input : T → SimpleHandshakePipe T → SimpleHandshakePipe T
  push_input v s = record s { input = push v s.input }

  abbrev pub pop_output : SimpleHandshakePipe T → SimpleHandshakePipe T
  pop_output s = record s { output = pop s.output }
