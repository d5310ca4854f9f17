-- ===== src/Utils/Storage.antt =====
-- src/utils/storage.hpp: StorageNext<T>, a register with the value of this cycle and of the next.
-- A priority is a byte; a smaller one wins.
use nullrvsim.Prelude.{ℕ, Bool, true, false, not, leb, ◌||◌, if◌then◌else◌, List, [], ◌∷◌}

pub record StorageNext {ℓ} (T : Type ℓ) : Type ℓ where
  pub value : T
  pub nextvalue : T
  pub updated : Bool
  pub update_priority : ℕ

module _ {ℓ} {T : Type ℓ} where
  abbrev pub init : T → StorageNext T
  init initial = record {
    value = initial;
    nextvalue = initial;
    updated = false;
    update_priority = 0;
  }

  unfoldable pub setnext : T → ℕ → StorageNext T → StorageNext T
  setnext value priority r =
      if not r.updated || leb priority r.update_priority
      then record r { nextvalue = value; updated = true; update_priority = priority }
      else r

  unfoldable pub apply_next_tick : StorageNext T → StorageNext T
  apply_next_tick r =
      if r.updated
      then record r { value = r.nextvalue; updated = false; update_priority = 0 }
      else r

  -- StorageNextArray and StorageNextVector
  unfoldable pub apply_all : List (StorageNext T) → List (StorageNext T)
  apply_all [] = []
  apply_all (r ∷ data_) = apply_next_tick r ∷ apply_all data_
