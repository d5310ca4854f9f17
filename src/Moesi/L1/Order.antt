-- ===== src/Moesi/L1/Order.antt =====
-- The messages that send_msg_nolock (src/cache/moesi/l1cachev2.cpp) sends, channel by channel.
use nullrvsim.Prelude.{
  ℕ, zero, suc, ◌≤◌, ◌≡◌, refl, Bool, true, false, ◌==◌, if◌then◌else◌, List, [], ◌∷◌, ◌++◌, length,
  get_or, set, arith, Bool-cases, inl, inr,
}
use nullrvsim.Moesi.L1.{Ready}
use nullrvsim.Moesi.L1.Port.{send_ready}

-- The messages of a channel.
unfoldable pub on_channel : ℕ → List Ready → List Ready
on_channel c [] = []
on_channel c (m ∷ rest) = let l = on_channel c rest in if m.cha == c then m ∷ l else l

-- After a message was sent on a channel, there is no more room on it.
get_or-taken :
    (can : List Bool) (i c : ℕ)
    → get_or (set can i false) c false ≡ (if i == c then false else get_or can c false)
get_or-taken [] i c = ground arith
get_or-taken (b ∷ can) zero zero = refl
get_or-taken (b ∷ can) zero (suc c) = ground arith
get_or-taken (b ∷ can) (suc i) zero = ground arith
get_or-taken (b ∷ can) (suc i) (suc c) = ground (arith, get_or-taken can i c)

abbrev pub quota : Bool → ℕ
quota true = 1
quota false = 0

send_ready-quota :
    (can : List Bool) (l : List Ready) (c : ℕ)
    → length (on_channel c (send_ready can l).0) ≤ quota (get_or can c false)
unfolding send_ready on_channel
send_ready-quota can [] c = omega arith
send_ready-quota can (m ∷ rest) c = ground (
  arith,
  send_ready-quota (set can m.cha false) rest c,
  send_ready-quota can rest c,
  get_or-taken can m.cha c,
)

empty_of_length : (l : List Ready) → length l ≤ 0 → l ≡ []
empty_of_length [] h = refl
empty_of_length (m ∷ l) h = absurd (omega arith)

send_ready-full :
    (can : List Bool) (l : List Ready) (c : ℕ)
    → get_or can c false ≡ false
    → on_channel c (send_ready can l).0 ≡ []
send_ready-full can l c h =
    empty_of_length (on_channel c (send_ready can l).0) (ground (arith, send_ready-quota can l c))

-- On each channel at most one message is sent, and none when the bus has no room on it; and what is
-- sent on it, followed by what stays, is what waited for it, in its order.
pub send_ready-on_channel :
    (can : List Bool) (l : List Ready) (c : ℕ)
    → (length (on_channel c (send_ready can l).0) ≤ quota (get_or can c false))
      × (on_channel c (send_ready can l).0 ++ on_channel c (send_ready can l).1 ≡ on_channel c l)
unfolding send_ready on_channel
send_ready-on_channel can [] c = (omega arith, refl)
send_ready-on_channel can (m ∷ rest) c =
    let kept = (send_ready-on_channel (set can m.cha false) rest c).1 in
    let left = (send_ready-on_channel can rest c).1 in
    let taken = get_or-taken can m.cha c in
    (
      send_ready-quota can (m ∷ rest) c,
      elim (Bool-cases (get_or can c false)) [
        | inl room ↦ ground (arith, kept, left)
        | inr full ↦ ground (arith, kept, left, send_ready-full can rest c full)
      ],
    )
