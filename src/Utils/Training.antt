-- ===== src/Utils/Training.antt =====
-- A counter of src/utils/saturate.hpp that is trained: each outcome moves it one step up or down, as
-- its users do.
use nullrvsim.Prelude.{
  ℕ, zero, suc, ◌+◌, ◌-◌, ◌≤◌, ◌≡◌, min, Bool, true, false, List, [], ◌∷◌, arith,
}
use nullrvsim.Utils.Saturate.{SaturateCounter8, get_increment, get_decrement, assign}

module _ (max_v : ℕ) where
  unfoldable pub step : Bool → SaturateCounter8 → SaturateCounter8
  step true c = assign max_v (get_increment max_v c) c
  step false c = assign max_v (get_decrement c) c

  unfoldable pub train : List Bool → SaturateCounter8 → SaturateCounter8
  train [] c = c
  train (b ∷ bs) c = train bs (step b c)

  -- `n` times the same outcome
  unfoldable pub same : ℕ → Bool → SaturateCounter8 → SaturateCounter8
  same zero b c = c
  same (suc n) b c = same n b (step b c)

  -- A counter within its bounds stays there, whatever the outcomes are.
  pub train-bound :
      (bs : List Bool) (c : SaturateCounter8) → c.value ≤ max_v → (train bs c).value ≤ max_v
  unfolding train step assign get_increment get_decrement
  train-bound [] c h = h
  train-bound (true ∷ bs) c h = train-bound bs (step true c) (ground arith)
  train-bound (false ∷ bs) c h = train-bound bs (step false c) (ground arith)

  -- `n` equal outcomes move a counter within its bounds by `n`, but not past the end of the range.
  pub same-value :
      (n : ℕ) (c : SaturateCounter8)
      → c.value ≤ max_v
      → ((same n true c).value ≡ min (c.value + n) max_v) × ((same n false c).value ≡ c.value - n)
  unfolding same step assign get_increment get_decrement
  same-value zero c h = (omega arith, omega arith)
  same-value (suc n) c h = (
    ground (arith, (same-value n (step true c) (ground arith)).0),
    ground (arith, (same-value n (step false c) (ground arith)).1),
  )
