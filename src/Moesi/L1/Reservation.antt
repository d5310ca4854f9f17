-- ===== src/Moesi/L1/Reservation.antt =====
-- The reservation of load_reserved and store_conditional (src/cache/moesi/l1cachev2.cpp).
use nullrvsim.Prelude.{ℕ, ◌≡◌, ◌≢◌, ◌⊎◌, true, false, Option, some, List, [], arith}
use nullrvsim.SimError.{unconditional}
use nullrvsim.Moesi.L1.{Cache, addr_to_line_index, get_entry, remove_line}
use nullrvsim.Moesi.L1.Access.{store, store_conditional}
use nullrvsim.Moesi.L1.Forward.{done, handle_invalid, handle_getm_forward}

module _ (home : ℕ → Option ℕ) (ports : List (Option (List ℕ))) where
  -- A store-conditional without a reservation of its address is refused and changes nothing.
  pub store_conditional-unconditional :
      (paddr len : ℕ) (buf : List ℕ) (r : Cache)
      → (r.reserved_address_valid ≡ false) ⊎ (r.reserved_address ≢ paddr)
      → store_conditional home ports paddr len buf r ≡ some (unconditional, r)
  unfolding store_conditional
  store_conditional-unconditional paddr len buf r h = ground arith

-- Once an invalidation of the reserved line is handled, the reservation is gone.
pub handle_invalid-reservation :
    (lindex arg : ℕ) (r : Cache) {s : Cache}
    → handle_invalid lindex arg r ≡ done s
    → addr_to_line_index r.reserved_address ≡ lindex
    → s.reserved_address_valid ≡ false
unfolding handle_invalid remove_line get_entry
handle_invalid-reservation lindex arg r e h = ground arith

-- Handing the reserved line over to another cache that asks to write it leaves the reservation as it
-- is.
handle_getm_forward-reservation :
    (lindex arg : ℕ) (r : Cache) {s : Cache}
    → handle_getm_forward lindex arg r ≡ done s
    → (s.reserved_address_valid ≡ r.reserved_address_valid)
      × (s.reserved_address ≡ r.reserved_address)
unfolding handle_getm_forward remove_line
handle_getm_forward-reservation lindex arg r e = ground arith

-- After the reserved line was handed over to another cache that asked to write it, a
-- store-conditional to the reserved address is not refused: it goes on as a store.
pub store_conditional-handle_getm_forward :
    (home : ℕ → Option ℕ) (ports : List (Option (List ℕ))) (paddr len lindex arg : ℕ) (buf : List ℕ)
    (r : Cache) {s : Cache}
    → r.reserved_address_valid ≡ true
    → r.reserved_address ≡ paddr
    → handle_getm_forward lindex arg r ≡ done s
    → store_conditional home ports paddr len buf s ≡ store home ports paddr len buf [] s
unfolding store_conditional
store_conditional-handle_getm_forward home ports paddr len lindex arg buf r v a e =
    ground (arith, handle_getm_forward-reservation lindex arg r e)
