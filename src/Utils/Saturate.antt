-- ===== src/Utils/Saturate.antt =====
-- src/utils/saturate.hpp: SaturateCounter8<MaxV>. `max_v` is the template's parameter, a byte.
use nullrvsim.Prelude.{ℕ, ◌+◌, ◌-◌, ◌/◌, Bool, ltb, leb, ◌==◌, if◌then◌else◌}

pub record SaturateCounter8 : Type 0 where
  pub value : ℕ

module _ (max_v : ℕ) where
  abbrev pub init : SaturateCounter8
  init = record { value = max_v / 2 }

  unfoldable pub get_increment : SaturateCounter8 → ℕ
  get_increment c = if ltb c.value max_v then c.value + 1 else max_v

  unfoldable pub is_positive : SaturateCounter8 → Bool
  is_positive c = leb (max_v / 2) c.value

  unfoldable pub is_negative : SaturateCounter8 → Bool
  is_negative c = ltb c.value (max_v / 2)

  unfoldable pub is_saturate_positive : SaturateCounter8 → Bool
  is_saturate_positive c = c.value == max_v

  -- `operator=`
  unfoldable pub assign : ℕ → SaturateCounter8 → SaturateCounter8
  assign v c = record { value = if ltb max_v v then max_v else v }

unfoldable pub get_decrement : SaturateCounter8 → ℕ
get_decrement c = if ltb 0 c.value then c.value - 1 else 0

unfoldable pub is_saturate_negative : SaturateCounter8 → Bool
is_saturate_negative c = c.value == 0
