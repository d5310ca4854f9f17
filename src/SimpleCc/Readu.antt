-- ===== src/SimpleCc/Readu.antt =====
-- handle_readu in one step: which snoop its loop leaves at the port of the owner.
use nullrvsim.Prelude.{
  ℕ, ◌<◌, ◌≡◌, ◌∙◌, refl, ap, Bool, true, false, not, ◌==◌, ◌||◌, if◌then◌else◌, some, zero, suc,
  Bool-cases, inl, inr, List, [], ◌∷◌, length, length-set, set, get_or-set_self, arith,
}
use nullrvsim.Prelude.Assoc.{find, assign}
use nullrvsim.SimpleCc.Codes.Snoop
use nullrvsim.SimpleCc.Port.{Bundle, zeroed}
use nullrvsim.SimpleCc.Llc.{Llc, Higher, port_at, snoop_port, forward, invalidate, handle_readu}

set-set {ℓ} : {A : Type ℓ} (xs : List A) (i : ℕ) (v w : A) → set (set xs i v) i w ≡ set xs i w
set-set [] i v w = refl
set-set (x ∷ xs) zero v w = refl
set-set (x ∷ xs) (suc i) v w = ap (λ l. x ∷ l) (set-set xs i v w)

-- Does a cache besides `idx` share the line?
abbrev pub third : List ℕ → ℕ → Bool
third [] idx = false
third (other ∷ rest) idx = not (other == idx) || third rest idx

-- A snoop that is asked for over another one takes its place.
snoop_port-twice :
    (owner a b line : ℕ) (r : Llc)
    → owner < length r.ports
    → snoop_port owner b line (snoop_port owner a line r) ≡ snoop_port owner b line r
snoop_port-twice owner a b line r h =
    let p = port_at owner r in
    let asked = record p { snoop_next = a; snoop_line_next = line } in
    ap (λ (ps : List Bundle). record r { ports = ps })
      (ap
          (λ (q : Bundle).
            set (set r.ports owner asked) owner
              (record q { snoop_next = b; snoop_line_next = line }))
          (get_or-set_self r.ports owner asked zeroed h)
        ∙ set-set r.ports owner asked (record p { snoop_next = b; snoop_line_next = line }))

-- The state after the loop.
abbrev pub invalidated : List ℕ → ℕ → ℕ → ℕ → Llc → Llc
invalidated l owner idx line r =
    if third l idx then record (snoop_port owner Snoop.inval line r) { set_snoop = 2 } else r

invalidate_lem :
    (l : List ℕ) (owner idx line : ℕ) (r : Llc)
    → owner < length r.ports
    → invalidate l owner idx line r ≡ invalidated l owner idx line r
unfolding invalidate
invalidate_lem [] owner idx line r h = refl
invalidate_lem (other ∷ rest) owner idx line r h = elim (Bool-cases (other == idx)) [
  | inl e ↦ rw e (invalidate_lem rest owner idx line r h)
  | inr e ↦
      let once = record (snoop_port owner Snoop.inval line r) { set_snoop = 2 } in
      rw e (
        invalidate_lem rest owner idx line once (
          omega (
            arith,
            h,
            length-set r.ports owner
                (record (port_at owner r) { snoop_next = Snoop.inval; snoop_line_next = line }),
          ))
        ∙ again (third rest idx))
]
  where
    again :
        (b : Bool)
        → (if b
            then record (snoop_port owner Snoop.inval line
                (record (snoop_port owner Snoop.inval line r) { set_snoop = 2 })) { set_snoop = 2 }
            else record (snoop_port owner Snoop.inval line r) { set_snoop = 2 })
          ≡ record (snoop_port owner Snoop.inval line r) { set_snoop = 2 }
    again true =
        ap (λ (t : Llc). record t { set_snoop = 2 })
          (snoop_port-twice owner Snoop.inval Snoop.inval line r h)
    again false = refl

-- For a line that is in a first-level cache, handle_readu leaves one snoop at the port of the owner: for
-- its data if no third cache shares the line, and to drop it if one does.
pub handle_readu_lem :
    (idx : ℕ) (r : Llc) (s : Higher)
    → find (port_at idx r).req_line r.state ≡ some s
    → s.owner < length r.ports
    → (handle_readu idx r).1
      ≡ record (forward s.owner
          (if third s.shared idx then Snoop.inval else Snoop.uniq)
          (port_at idx r).req_line
          idx
          r) {
            state = assign (port_at idx r).req_line (record { owner = idx; shared = [] }) r.state;
          }
unfolding handle_readu
handle_readu_lem idx r s found h =
    let line = (port_at idx r).req_line in
    let asked = forward s.owner Snoop.uniq line idx r in
    let owned =
      λ (t : Llc). record t { state = assign line (record { owner = idx; shared = [] }) r.state } in
    rw (found, handle_readu)
      (ap owned (
        invalidate_lem s.shared s.owner idx line asked (
          omega (
            arith,
            h,
            length-set r.ports s.owner
                (record (port_at s.owner r) { snoop_next = Snoop.uniq; snoop_line_next = line }),
          ))
        ∙ last (third s.shared idx)))
  where
    last :
        (b : Bool)
        → (if b
            then record (snoop_port s.owner Snoop.inval
                (port_at idx r).req_line
                (forward s.owner Snoop.uniq (port_at idx r).req_line idx r)) { set_snoop = 2 }
            else forward s.owner Snoop.uniq (port_at idx r).req_line idx r)
          ≡ forward s.owner (if b then Snoop.inval else Snoop.uniq) (port_at idx r).req_line idx r
    last true =
        ap
          (λ (t : Llc). record t {
            set_snoop = 2;
            need_snoop_data = true;
            who_need_snoop_data = idx;
            wait_snoop_data = s.owner;
          })
          (snoop_port-twice s.owner Snoop.uniq Snoop.inval (port_at idx r).req_line r h)
    last false = refl
