-- ===== src/Cache/Mshr.antt =====
-- MSHRArray<PayloadT>, each method under its lock.
use nullrvsim.Prelude.{ℕ, ltb, if◌then◌else◌, Option, none, some, List, [], length}
use nullrvsim.Prelude.Assoc.{find, erase, insert}

pub record Mshr {ℓ} (P : Type ℓ) : Type ℓ where
  pub max_sz : ℕ
  pub hashmap : List (ℕ × P)

module _ {ℓ} {P : Type ℓ} where
  unfoldable pub get : ℕ → Mshr P → Option P
  get lindex r = find lindex r.hashmap

  -- The new entry holds `zeroed`, what the memset leaves; `none` is the null pointer.
  unfoldable pub alloc : P → ℕ → Mshr P → Option (Mshr P)
  alloc zeroed lindex r = elim (find lindex r.hashmap) [
    | some p ↦ none
    | none ↦
        if ltb (length r.hashmap) r.max_sz
        then some (record r { hashmap = insert lindex zeroed r.hashmap })
        else none
  ]

  unfoldable pub remove : ℕ → Mshr P → Mshr P
  remove lindex r = record r { hashmap = erase lindex r.hashmap }

  unfoldable pub clear : Mshr P → Mshr P
  clear r = record r { hashmap = [] }
