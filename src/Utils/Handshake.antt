-- ===== src/Utils/Handshake.antt =====
-- src/utils/pipe.hpp: the ports, and SimpleHandshakePipe<T> with one of each. A port's value is of no
-- meaning while it is neither valid nor accepted.
use nullrvsim.Prelude.{Bool, true, false, not, ◌&&◌, if◌then◌else◌}

pub record PipePopPort {ℓ} (T : Type ℓ) : Type ℓ where
  pub valid : Bool
  pub value : T
  pub accepted : Bool

pub record PipePushPort {ℓ} (T : Type ℓ) : Type ℓ where
  pub ready : Bool
  pub value : T
  pub accepted : Bool

pub record SimpleHandshakePipe {ℓ} (T : Type ℓ) : Type ℓ where
  pub output : PipePopPort T
  pub input : PipePushPort T
  pub clear_flag : Bool

module _ {ℓ} {T : Type ℓ} where
  unfoldable pub pop : PipePopPort T → PipePopPort T
  pop p = if not p.valid then p else record p { valid = false; accepted = true }

  unfoldable pub push : T → PipePushPort T → PipePushPort T
  push value p = if not p.ready then p else record { ready = false; value = value; accepted = true }

  unfoldable pub clear : SimpleHandshakePipe T → SimpleHandshakePipe T
  clear s = record s { clear_flag = true }

  abbrev pub shut : PipePopPort T → PipePopPort T
  shut p = record p { valid = false; accepted = false }

  abbrev pub opened : PipePushPort T → PipePushPort T
  opened p = record p { ready = true; accepted = false }

  unfoldable pub apply_next_tick : SimpleHandshakePipe T → SimpleHandshakePipe T
  apply_next_tick s =
      if s.clear_flag
      then record { output = shut s.output; input = opened s.input; clear_flag = false }
      else (let output =
            if s.output.accepted then record s.output { accepted = false } else s.output in
          if s.input.accepted && not output.valid
          then record s {
            output = record output { valid = true; value = s.input.value };
            input = opened s.input;
          }
          else record s { output = output })
