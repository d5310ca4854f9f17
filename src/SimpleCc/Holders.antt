-- ===== src/SimpleCc/Holders.antt =====
-- The states of the last level as sets: which first-level caches hold a line.
use nullrvsim.Prelude.{
  ℕ, ◌≡◌, refl, Bool, true, false, not, ◌==◌, ◌&&◌, ◌||◌, if◌then◌else◌, Option, none, some,
  Option-cases, Bool-cases, inl, inr, List, [], ◌∷◌, arith,
}
use nullrvsim.Prelude.Assoc.{find, find-assign, find-erase, erase}
use nullrvsim.Prelude.Sets.{contains, include, remove_all, contains-remove_all, contains-include}
use nullrvsim.SimpleCc.Codes.Snoop
use nullrvsim.SimpleCc.Llc.{
  Llc, Higher, port_at, forward, l1_miss, handle_read, invalidate, invalidate_one, handle_readu,
  write_back, put_owned, handle_put,
}

abbrev pub held_by : Option Higher → ℕ → Bool
held_by none i = false
held_by (some s) i = i == s.owner || contains i s.shared

-- Does the cache at port `i` hold the line, as far as the last level knows?
abbrev pub holds : Llc → ℕ → ℕ → Bool
holds r line i = held_by (find line r.state) i

abbrev pub apart : Option Higher → Bool
apart none = true
apart (some s) = not (contains s.owner s.shared)

-- No owner is among those that share its line.
abbrev pub IsApart : Llc → Type 0
IsApart r = (line : ℕ) → apart (find line r.state) ≡ true

l1_miss-state :
    (idx : ℕ) (r : Llc) (k : ℕ)
    → find k (l1_miss idx r).1.state ≡ (
        if k == (port_at idx r).req_line
        then some (record { owner = idx; shared = [] })
        else find k r.state)
unfolding l1_miss
l1_miss-state idx r k =
    ground
      (arith, find-assign (port_at idx r).req_line k (record { owner = idx; shared = [] }) r.state)

invalidate-state :
    (l : List ℕ) (owner idx line : ℕ) (r : Llc) → (invalidate l owner idx line r).state ≡ r.state
unfolding invalidate
invalidate-state [] owner idx line r = refl
invalidate-state (other ∷ rest) owner idx line r =
    ground (arith, invalidate-state rest owner idx line (invalidate_one other owner idx line r))

-- A read adds the cache that asks to the holders of its line.
handle_read-holds :
    (idx : ℕ) (r : Llc) (k i : ℕ)
    → holds (handle_read idx r).1 k i
      ≡ (if k == (port_at idx r).req_line && i == idx then true else holds r k i)
unfolding handle_read contains
handle_read-holds idx r k i =
    let line = (port_at idx r).req_line in
    elim (Option-cases (find line r.state)) [
      | inl n ↦ ground (arith, l1_miss-state idx r k)
      | inr (s, e) ↦ ground (
        arith,
        find-assign line k (record s { shared = include idx s.shared }) r.state,
        contains-include idx i s.shared,
      )
    ]

-- A read for ownership leaves it as the only one.
handle_readu-holds :
    (idx : ℕ) (r : Llc) (k i : ℕ)
    → holds (handle_readu idx r).1 k i
      ≡ (if k == (port_at idx r).req_line then i == idx else holds r k i)
unfolding handle_readu contains
handle_readu-holds idx r k i =
    let line = (port_at idx r).req_line in
    elim (Option-cases (find line r.state)) [
      | inl n ↦ ground (arith, l1_miss-state idx r k)
      | inr (s, e) ↦ ground (
        arith,
        find-assign line k (record { owner = idx; shared = [] }) r.state,
        invalidate-state s.shared s.owner idx line (forward s.owner Snoop.uniq line idx r),
      )
    ]

write_back-state :
    (line : ℕ) (bytes : List ℕ) (r : Llc) {s : Llc}
    → write_back line bytes r ≡ some s
    → s.state ≡ r.state
unfolding write_back
write_back-state line bytes r e = ground arith

module _ (first : List ℕ → ℕ)
    (picks : (k : ℕ) (ks : List ℕ) → contains (first (k ∷ ks)) (k ∷ ks) ≡ true) where
  put_owned-holds :
      (idx : ℕ) (s : Higher) (r : Llc) (l : List ℕ) {n : ℕ} {t : Llc} (k i : ℕ)
      → find (port_at idx r).req_line r.state ≡ some s
      → s.shared ≡ l
      → s.owner ≡ idx
      → contains s.owner s.shared ≡ false
      → put_owned first idx (port_at idx r).req_line s r ≡ some (n, t)
      → holds t k i ≡ (if k == (port_at idx r).req_line && i == idx then false else holds r k i)
  unfolding put_owned contains
  put_owned-holds idx s r [] {n} {t} k i found q own free e =
      let line : ℕ = (port_at idx r).req_line in
      let bytes : List ℕ = (port_at idx r).req_line_buf in
      let gone : Llc = record r { state = erase line r.state } in
      elim (Option-cases (write_back line bytes gone)) [
        | inl x ↦ absurd (ground arith)
        | inr (u, w) ↦ ground (arith, write_back-state line bytes gone w, find-erase line k r.state)
      ]
  put_owned-holds idx s r (j ∷ js) k i found q own free e =
      let heir : ℕ = first (j ∷ js) in
      ground (
        arith,
        picks j js,
        find-assign (port_at idx r).req_line k
            (record { owner = heir; shared = remove_all heir (j ∷ js) }) r.state,
        contains-remove_all heir i (j ∷ js),
      )

  -- A line that is put back loses just the cache that puts it back from its holders, when no owner is
  -- among those that share its line and the heir is picked from the caches that share it.
  pub handle_put-holds :
      (idx : ℕ) (r : Llc) {n : ℕ} {t : Llc} (k i : ℕ)
      → IsApart r
      → handle_put first idx r ≡ some (n, t)
      → holds t k i ≡ (if k == (port_at idx r).req_line && i == idx then false else holds r k i)
  unfolding handle_put
  handle_put-holds idx r {n} {t} k i h e =
      let line : ℕ = (port_at idx r).req_line in
      elim (Option-cases (find line r.state)) [
        | inl x ↦ ground arith
        | inr (s, found) ↦ elim (Bool-cases (s.owner == idx)) [
          | inl own ↦
              put_owned-holds idx s r s.shared {n = n} {t = t} k i found refl (ground arith)
                (ground (arith, h line)) (ground arith)
          | inr other ↦ ground (
            arith,
            find-assign line k (record s { shared = remove_all idx s.shared }) r.state,
            contains-remove_all idx i s.shared,
          )
        ]
      ]

-- A read adds the cache that asks to the holders of its line, and a read for ownership leaves it as the
-- only one; no other line changes its holders.
pub handlers-holds :
    (idx : ℕ) (r : Llc) (k i : ℕ)
    → (holds (handle_read idx r).1 k i
        ≡ (if k == (port_at idx r).req_line && i == idx then true else holds r k i))
      × (holds (handle_readu idx r).1 k i
          ≡ (if k == (port_at idx r).req_line then i == idx else holds r k i))
handlers-holds idx r k i = (handle_read-holds idx r k i, handle_readu-holds idx r k i)
