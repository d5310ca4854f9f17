-- ===== src/SimpleCc/Arbiter.antt =====
-- The loop of on_current_tick that looks for a port with a request.
use nullrvsim.Prelude.{
  ℕ, zero, suc, ◌+◌, ◌-◌, ◌%◌, ◌^◌, ◌<◌, ◌≡◌, ◌∙◌, ap, Bool, true, false, ◌==◌, if◌then◌else◌,
  Bool-cases, inl, inr, arith,
}
use native.Mathlib.Decide.{dec_lt}
use native.Mathlib.Nat.{mod-add-mod, mod-eq_of_lt, mod-lt, add-zero, add-mod_right}
use nullrvsim.Prelude.Words.{add32}
use nullrvsim.SimpleCc.Codes.Req
use nullrvsim.SimpleCc.Llc.{Llc, port_at, seek}

-- Is there a request at the port?
abbrev pub asks : Llc → ℕ → Bool
asks r i = if (port_at i r).req == Req.idle then false else true

-- Where the loop is after some turns.
abbrev pub turned : ℕ → Llc → ℕ
turned j r = (r.current + j) % r.port_num

step_turned : (j c n : ℕ) → c < n → n < 2 ^ 32 → ((c + 1) % 2 ^ 32 % n + j) % n ≡ (c + suc j) % n
step_turned j c n h k =
    ap (λ (x : ℕ). (x % n + j) % n) (omega arith)
    ∙ mod-add-mod (c + 1) n j
    ∙ ap (λ (x : ℕ). x % n) (omega arith)

-- A request within the turns left is found.
seek_reaches :
    (k j : ℕ) (r : Llc)
    → r.current < r.port_num
    → r.port_num < 2 ^ 32
    → j < k
    → asks r (turned j r) ≡ true
    → asks r (seek k r).current ≡ true
unfolding seek
seek_reaches zero j r c n h e = absurd (omega arith)
seek_reaches (suc k) zero r c n h e =
    ground (arith, mod-eq_of_lt c, ap (λ (x : ℕ). x % r.port_num) (add-zero r.current))
seek_reaches (suc k) (suc j) r c n h e = elim (Bool-cases (asks r r.current)) [
  | inl found ↦ ground arith
  | inr not_here ↦
      let next : Llc = record r { current = add32 r.current 1 % r.port_num } in
      ground (
        arith,
        seek_reaches k j next (mod-lt (add32 r.current 1) (omega arith)) n (omega arith)
            (ap (asks r) (step_turned j r.current r.port_num c n) ∙ e),
      )
]

-- Whichever port has a request, the loop over the ports stops at a port with one, when it starts at a
-- port and there are fewer than 2^32 ports.
pub seek-asks :
    (r : Llc) (i : ℕ)
    → r.current < r.port_num
    → r.port_num < 2 ^ 32
    → i < r.port_num
    → asks r i ≡ true
    → asks r (seek r.port_num r).current ≡ true
seek-asks r i c n h e = elim (dec_lt i r.current) [
  | yes before ↦ seek_reaches r.port_num (i + r.port_num - r.current) r c n (omega arith) (
      ap (asks r)
        (ap (λ (x : ℕ). x % r.port_num) (omega arith) ∙ add-mod_right i r.port_num ∙ mod-eq_of_lt h)
      ∙ e)
  | no after ↦
      seek_reaches r.port_num (i - r.current) r c n (omega arith)
        (ap (asks r) (ap (λ (x : ℕ). x % r.port_num) (omega arith) ∙ mod-eq_of_lt h) ∙ e)
]
