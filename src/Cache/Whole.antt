-- ===== src/Cache/Whole.antt =====
-- The operations on a block keep its number of sets, so that every line keeps a set to be in; and
-- what a block holds does not change when a line is read.
use nullrvsim.Prelude.{ℕ, ◌≡◌, Bool, false, Option, some, List, length-set, arith}
use nullrvsim.Prelude.Assoc.{assign, erase}
use nullrvsim.Cache.Lru.{
  Block, set_index, set_of, store, get_line, update_line, remove_line, insert_line,
}
use nullrvsim.Cache.Lookup.{lookup, IsWhole}

module _ {ℓ} {P : Type ℓ} where
  pub store-IsWhole : (l : ℕ) (m : List (ℕ × P)) (c : Block P) → IsWhole c → IsWhole (store l m c)
  store-IsWhole l m c whole k = omega (arith, whole k, length-set c.sets (set_index c l) m)

  pub remove_line-IsWhole : (l : ℕ) (c : Block P) → IsWhole c → IsWhole (remove_line l c)
  unfolding remove_line
  remove_line-IsWhole l c whole k = store-IsWhole l (erase l (set_of c l)) c whole k

  pub get_line-IsWhole :
      (l : ℕ) (tag : Bool) (c : Block P) → IsWhole c → IsWhole (get_line l tag c).1
  unfolding get_line
  get_line-IsWhole l tag c whole k = ground (arith, whole k)

  pub lookup-get_line :
      (l k : ℕ) (tag : Bool) (c : Block P) → lookup (get_line l tag c).1 k ≡ lookup c k
  unfolding get_line
  lookup-get_line l k tag c = ground arith

  pub get_line-lookup : (l : ℕ) (tag : Bool) (c : Block P) → (get_line l tag c).0 ≡ lookup c l
  unfolding get_line
  get_line-lookup l tag c = ground arith

  pub insert_line-IsWhole :
      (l : ℕ) (buf : P) (c : Block P) {replaced : Option (ℕ × P)} {c' : Block P}
      → IsWhole c
      → insert_line l buf c ≡ some (replaced, c')
      → IsWhole c'
  unfolding insert_line get_line remove_line
  insert_line-IsWhole l buf c whole e k = grind (arith, whole k, length-set)

  pub update_line-IsWhole :
      (l : ℕ) (buf : P) (c : Block P) → IsWhole c → IsWhole (update_line l buf false c).1
  unfolding update_line
  update_line-IsWhole l buf c whole k =
      ground (arith, whole k, length-set c.sets (set_index c l) (assign l buf (set_of c l)))
