-- ===== src/Utils/Priority.antt =====
-- Which of the writes of a cycle a StorageNext (src/utils/storage.hpp) takes.
use nullrvsim.Prelude.{
  ℕ, ◌≡◌, refl, Bool, true, false, not, leb, ltb, ◌||◌, ◌&&◌, List, [], ◌∷◌, ◌++◌, arith,
}
use nullrvsim.Utils.Storage.{StorageNext, setnext, apply_next_tick}

module _ {ℓ} {T : Type ℓ} where
  -- The writes of a cycle in their order.
  unfoldable pub write_all : List (T × ℕ) → StorageNext T → StorageNext T
  write_all [] r = r
  write_all ((v, p) ∷ ws) r = write_all ws (setnext v p r)

  abbrev pub least : ℕ → List (T × ℕ) → Bool
  least p [] = true
  least p ((v, q) ∷ ws) = ltb p q && least p ws

  abbrev pub least_or_equal : ℕ → List (T × ℕ) → Bool
  least_or_equal p [] = true
  least_or_equal p ((v, q) ∷ ws) = leb p q && least_or_equal p ws

  -- A write stays until one of the same or a smaller priority.
  write_all-kept :
      (ws : List (T × ℕ)) (r : StorageNext T)
      → r.updated ≡ true
      → least r.update_priority ws ≡ true
      → write_all ws r ≡ r
  unfolding write_all setnext
  write_all-kept [] r u h = refl
  write_all-kept ((v, q) ∷ ws) r u h = ground (arith, write_all-kept ws r u (ground arith))

  -- What a register has as its next value is taken over by a write of the same or a smaller priority
  -- than all before it.
  write_all-taken :
      (before : List (T × ℕ)) (v : T) (p : ℕ) (r : StorageNext T)
      → least_or_equal p before ≡ true
      → ((not r.updated || leb p r.update_priority) ≡ true)
      → (not (write_all before r).updated || leb p (write_all before r).update_priority) ≡ true
  unfolding write_all setnext
  write_all-taken [] v p r h o = o
  write_all-taken ((w, q) ∷ before) v p r h o =
      write_all-taken before v p (setnext w q r) (ground arith) (ground arith)

  write_all-append :
      (before after : List (T × ℕ)) (r : StorageNext T)
      → write_all (before ++ after) r ≡ write_all after (write_all before r)
  unfolding write_all
  write_all-append [] after r = refl
  write_all-append ((v, p) ∷ before) after r = write_all-append before after (setnext v p r)

  -- At the end of a cycle a register without an earlier update has the value of the last of the
  -- writes with the smallest priority, and is ready for the next cycle.
  pub apply_next_tick-write_all :
      (before after : List (T × ℕ)) (v : T) (p : ℕ) (r : StorageNext T)
      → r.updated ≡ false
      → least_or_equal p before ≡ true
      → least p after ≡ true
      → ((apply_next_tick (write_all (before ++ (v, p) ∷ after) r)).value ≡ v)
        × ((apply_next_tick (write_all (before ++ (v, p) ∷ after) r)).updated ≡ false)
  unfolding write_all setnext apply_next_tick
  apply_next_tick-write_all before after v p r u h k = ground (
    arith,
    write_all-append before ((v, p) ∷ after) r,
    write_all-taken before v p r h (ground arith),
    write_all-kept after (setnext v p (write_all before r))
        (ground (arith, write_all-taken before v p r h (ground arith)))
        (ground (arith, write_all-taken before v p r h (ground arith))),
  )
