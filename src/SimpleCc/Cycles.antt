-- ===== src/SimpleCc/Cycles.antt =====
-- What two cycles of the last level do after a snoop: the bundles are settled, and the cache that waits
-- for the data of another one gets them.
use nullrvsim.Prelude.{
  ℕ, zero, suc, ◌<◌, ◌≡◌, ◌∙◌, refl, sym, ap, true, Option, none, some, List, [], ◌∷◌, map, length,
  get_or, get_or-set_self, arith,
}
use nullrvsim.SimpleCc.Port.{Bundle, zeroed, retire_answer, pass_answer}
use nullrvsim.SimpleCc.Llc.{
  Llc, port_at, quiet, pass_data, proceed, on_current_tick, apply_next_tick,
}

-- Two cycles of the last level.
abbrev pub two_cycles : (List ℕ → ℕ) → Llc → Option Llc
two_cycles first r = elim (on_current_tick first r) [
  | none ↦ none
  | some s ↦ on_current_tick first (apply_next_tick s)
]

pub get_or-map :
    (f : Bundle → Bundle) (ps : List Bundle) (i : ℕ)
    → f zeroed ≡ zeroed
    → get_or (map f ps) i zeroed ≡ f (get_or ps i zeroed)
get_or-map f [] i h = sym h
get_or-map f (p ∷ ps) zero h = refl
get_or-map f (p ∷ ps) (suc i) h = get_or-map f ps i h

pub length-map : (f : Bundle → Bundle) (ps : List Bundle) → length (map f ps) ≡ length ps
length-map f [] = refl
length-map f (p ∷ ps) = ap suc (length-map f ps)

-- What a cycle of the last level without work makes of a bundle, and its end.
abbrev settled_one : Bundle → Bundle
settled_one p = retire_answer (pass_answer (quiet (retire_answer p)))

settled_zeroed : settled_one zeroed ≡ zeroed
unfolding retire_answer pass_answer
settled_zeroed = refl

settled-snoop_line_buf : (p : Bundle) → (settled_one p).snoop_line_buf ≡ p.snoop_line_buf
unfolding retire_answer pass_answer
settled-snoop_line_buf p = ground arith

map-settled :
    (ps : List Bundle)
    → map retire_answer (map pass_answer (map quiet (map retire_answer ps))) ≡ map settled_one ps
map-settled [] = refl
map-settled (p ∷ ps) = ap (λ l. settled_one p ∷ l) (map-settled ps)

abbrev pub Waits : ℕ → ℕ → Llc → Type 0
Waits idx o r =
    (r.set_snoop ≡ 2)
    × (r.need_snoop_data ≡ true)
    × (r.who_need_snoop_data ≡ idx)
    × (r.wait_snoop_data ≡ o)

proceed_two :
    (first : List ℕ → ℕ) (r : Llc)
    → r.set_snoop ≡ 2
    → proceed first r ≡ some (record r { set_snoop = 1; ports = map quiet r.ports })
unfolding proceed
proceed_two first r h = ground arith

proceed_one :
    (first : List ℕ → ℕ) (r : Llc)
    → r.set_snoop ≡ 1
    → proceed first r ≡ some (pass_data (record r { set_snoop = 0 }))
unfolding proceed
proceed_one first r h = ground arith

-- The bundles after two cycles, and the state but for the data that is passed on.
abbrev settled : Llc → Llc
settled r = record r {
  set_snoop = 0;
  ports = map retire_answer (map pass_answer (map quiet (map retire_answer r.ports)));
}

two_cycles-settled :
    (first : List ℕ → ℕ) (r : Llc)
    → r.set_snoop ≡ 2
    → two_cycles first r ≡ some (pass_data (settled r))
unfolding on_current_tick apply_next_tick
two_cycles-settled first r h =
    ap
      (λ (o : Option Llc). elim o as (λ _. Option Llc) [
        | none ↦ none
        | some s ↦ on_current_tick first (apply_next_tick s)
      ])
      (proceed_two first (record r { ports = map retire_answer r.ports }) h)
    ∙ proceed_one first (record (settled r) { set_snoop = 1 }) refl

-- What two cycles bring to the cache that waits for snooped data.
pub two_cycles-data :
    (first : List ℕ → ℕ) (idx o : ℕ) (r : Llc)
    → Waits idx o r
    → idx < length r.ports
    → (u : Llc) × (two_cycles first r ≡ some u)
      × ((port_at idx u).req_line_buf ≡ (port_at o r).snoop_line_buf)
two_cycles-data first idx o r (two, need, who, from) h = (
  pass_data (settled r),
  two_cycles-settled first r two,
  rw (need, who, from)
      (ap (λ (p : Bundle). p.req_line_buf)
          (get_or-set_self (settled r).ports idx
            (record (get_or (settled r).ports idx zeroed) {
              req_line_buf = (get_or (settled r).ports o zeroed).snoop_line_buf;
            })
            zeroed (omega (arith, ap length (map-settled r.ports), length-map settled_one r.ports)))
        ∙ ap (λ (ps : List Bundle). (get_or ps o zeroed).snoop_line_buf) (map-settled r.ports)
        ∙ ap (λ (p : Bundle). p.snoop_line_buf) (get_or-map settled_one r.ports o settled_zeroed)
        ∙ settled-snoop_line_buf (port_at o r)),
)
