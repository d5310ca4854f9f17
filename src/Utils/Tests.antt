-- ===== src/Utils/Tests.antt =====
-- The containers at small inputs.
use nullrvsim.Prelude.{
  ℕ, zero, suc, ◌^◌, ◌≡◌, ◌≢◌, ◌<◌, refl, true, false, List, [], ◌∷◌, length, get_or, arith,
}
use nullrvsim.Prelude.Assoc.{find}
use nullrvsim.Utils.Storage
use nullrvsim.Utils.Tagged.{Tagged, true_of}
use nullrvsim.Utils.Handshake
use nullrvsim.Utils.Handshake.{PipePopPort, PipePushPort, SimpleHandshakePipe}
use nullrvsim.Utils.Pipe
use nullrvsim.Utils.PipeLoss.{single, fresh, push_first, apply_next_tick-push_twice}
use nullrvsim.Utils.Plru
use nullrvsim.Utils.Plru.{ReplacerPlru}
use nullrvsim.Utils.Victim.{IsSized, victim-touch}
use nullrvsim.Utils.Ram.{BlockRam}

-- Of three writes the second has the smallest priority.
abbrev before : List (ℕ × ℕ)
before = (5, 2) ∷ []

abbrev after : List (ℕ × ℕ)
after = (7, 3) ∷ []

abbrev zeroed : Storage.StorageNext ℕ
zeroed = Storage.init 0

-- Tag 8 stands at place 0, and is to be replaced by tag 9.
abbrev tagged : Tagged ℕ
tagged = record {
  tags = 8 ∷ 0 ∷ [];
  datas = 80 ∷ 0 ∷ [];
  tag2idx = (8, 0) ∷ [];
  to_be_set_entries = record { index = 0; tag = 9; data_ = 90 } ∷ [];
}

tagged-true : true_of 8 tagged ≡ true
unfolding find
tagged-true = refl

-- A value is at the output, and another one waits in the input.
abbrev shaken : SimpleHandshakePipe ℕ
shaken = record {
  output = record { valid = true; value = 1; accepted = false };
  input = record { ready = false; value = 2; accepted = true };
  clear_flag = false;
}

abbrev popped : PipePopPort ℕ
popped = record { valid = true; value = 1; accepted = false }

abbrev idle : PipePushPort ℕ
idle = record { ready = true; value = 2; accepted = false }

apply_next_tick-push_twice_example :
    Pipe.apply_next_tick {T = ℕ} 4
      (Pipe.apply_next_tick 4 (push_first 2 (Pipe.apply_next_tick 4 (push_first 1 (fresh 0)))))
    ≡ single (record popped { value = 2 }) idle []
apply_next_tick-push_twice_example = apply_next_tick-push_twice 4 0 1 2

-- One set of four ways.
abbrev four_ways : ReplacerPlru
four_ways = record {
  bitree_left_hot_table = (false ∷ true ∷ false ∷ true ∷ []) ∷ [];
  to_be_touched = (0, 1) ∷ [];
}

four_ways-IsSized : IsSized 0 2 four_ways.bitree_left_hot_table
four_ways-IsSized = (refl, one_row)
  where
    one_row : (k : ℕ) → k < 2 ^ 0 → length (get_or four_ways.bitree_left_hot_table k []) ≡ 2 ^ 2
    one_row zero h = refl
    one_row (suc k) h = absurd (omega arith)

victim-touch_example :
    Plru.victim 0 2 0 (Plru.apply_next_tick 0 2 (Plru.touch 0 2 0 3 four_ways)) ≢ 3
victim-touch_example = victim-touch 0 1 0 3 four_ways four_ways-IsSized (omega arith)

-- Both write ports write to address 1, which is being read.
abbrev ram : BlockRam ℕ
ram = record {
  datas = 10 ∷ 11 ∷ 12 ∷ [];
  to_be_writens =
      record { addr = 1; data_ = 20; valid = true }
      ∷ record { addr = 1; data_ = 21; valid = true }
      ∷ [];
  to_be_read_addrs = 1 ∷ [];
  read_datas = 0 ∷ [];
}
