-- ===== src/TickQueue/Window.antt =====
-- Reading a circular buffer: `window h n` lists the `n` entries from index `h` on. Indices count on
-- past the end and are reduced when an entry is read.
use nullrvsim.Prelude.{
  ℕ, zero, suc, ◌+◌, ◌-◌, ◌%◌, ◌<◌, ◌≤◌, ◌≡◌, ◌≢◌, refl, sym, ap, ap₂, ◌∙◌, List, [], ◌∷◌, ◌++◌,
  length, get_or, set, take, drop, get_or-set_ne, arith,
}
use native.Mathlib.Nat.{mod-add-mod, mod-mod, mod-eq_of_lt, mod-eq-sub-mod}
use native.Mathlib.Decide.{dec_lt}

-- Fewer than `len` steps round the buffer do not come back to the start.
mod-ne : (len b k s : ℕ) → b < len → k < s → s < len → (b + k) % len ≢ (b + s) % len
mod-ne len b k s hb hk hs = elim (dec_lt (b + s) len) [
  | yes p ↦ omega (
    arith,
    mod-eq_of_lt {n = b + s} {m = len} p,
    mod-eq_of_lt {n = b + k} {m = len} (omega arith),
  )
  | no p ↦ elim (dec_lt (b + k) len) [
    | yes q ↦ omega (
      arith,
      mod-eq_of_lt {n = b + k} {m = len} q,
      mod-eq-sub-mod {n = b + s} {m = len} (omega arith),
      mod-eq_of_lt {n = b + s - len} {m = len} (omega arith),
    )
    | no q ↦ omega (
      arith,
      mod-eq-sub-mod {n = b + k} {m = len} (omega arith),
      mod-eq_of_lt {n = b + k - len} {m = len} (omega arith),
      mod-eq-sub-mod {n = b + s} {m = len} (omega arith),
      mod-eq_of_lt {n = b + s - len} {m = len} (omega arith),
    )
  ]
]

module _ {ℓ} {A : Type ℓ} (d : A) (len : ℕ) where
  unfoldable pub window : List A → ℕ → ℕ → List A
  window buf h zero = []
  window buf h (suc n) = get_or buf (h % len) d ∷ window buf (h + 1) n

  pub length-window : (buf : List A) (h n : ℕ) → length (window buf h n) ≡ n
  unfolding window
  length-window buf h zero = refl
  length-window buf h (suc n) = ap suc (length-window buf (h + 1) n)

  pub window-eq :
      (buf : List A) {h h' n n' : ℕ} → h ≡ h' → n ≡ n' → window buf h n ≡ window buf h' n'
  window-eq buf p q = ap₂ (window buf) p q

  -- Nothing is read of an empty window.
  pub window-none : (buf : List A) (h n : ℕ) → n ≡ 0 → window buf h n ≡ []
  unfolding window
  window-none buf h zero e = refl
  window-none buf h (suc n) e = absurd (omega arith)

  pub window_of_pos :
      (buf : List A) (h n : ℕ)
      → 0 < n
      → window buf h n ≡ get_or buf (h % len) d ∷ window buf (h + 1) (n - 1)
  unfolding window
  window_of_pos buf h zero p = absurd (omega arith)
  window_of_pos buf h (suc n) p =
      ap (◌∷◌ (get_or buf (h % len) d)) (window-eq buf refl (omega arith))

  -- The start may be reduced.
  pub window-mod : (buf : List A) (h n : ℕ) → window buf (h % len) n ≡ window buf h n
  unfolding window
  window-mod buf h zero = refl
  window-mod buf h (suc n) = ap₂ ◌∷◌ (ap (λ i. get_or buf i d) (mod-mod h len)) (
      sym (window-mod buf (h % len + 1) n)
      ∙ ap (λ i. window buf i n) (mod-add-mod h len 1)
      ∙ window-mod buf (h + 1) n)

  pub window-add :
      (buf : List A) (h n m : ℕ) → window buf h (n + m) ≡ window buf h n ++ window buf (h + n) m
  unfolding window
  window-add buf h zero m = window-eq buf (omega arith) (omega arith)
  window-add buf h (suc n) m =
      let later : window buf (h + 1 + n) m ≡ window buf (h + suc n) m =
        window-eq buf (omega arith) refl in
      window-eq buf {h' = h} {n' = suc (n + m)} refl (omega arith)
      ∙ ap (◌∷◌ (get_or buf (h % len) d)) (rw (← later) (window-add buf (h + 1) n m))

  pub take-window : (buf : List A) (h n k : ℕ) → k ≤ n → take k (window buf h n) ≡ window buf h k
  unfolding window
  take-window buf h n zero le = refl
  take-window buf h zero (suc k) le = absurd (omega arith)
  take-window buf h (suc n) (suc k) le =
      ap (◌∷◌ (get_or buf (h % len) d)) (take-window buf (h + 1) n k (omega arith))

  pub drop-window :
      (buf : List A) (h n k : ℕ) → k ≤ n → drop k (window buf h n) ≡ window buf (h + k) (n - k)
  unfolding window
  drop-window buf h n zero le = window-eq buf (omega arith) (omega arith)
  drop-window buf h zero (suc k) le = absurd (omega arith)
  drop-window buf h (suc n) (suc k) le =
      drop-window buf (h + 1) n k (omega arith) ∙ window-eq buf (omega arith) (omega arith)

  -- A write just past a window leaves the window alone, and one more entry shows it.
  pub window-set_past :
      (buf : List A) (b k n s : ℕ) (v : A)
      → b < len
      → k + n ≤ s
      → s < len
      → window (set buf ((b + s) % len) v) (b + k) n ≡ window buf (b + k) n
  unfolding window
  window-set_past buf b k zero s v hb hk hs = refl
  window-set_past buf b k (suc n) s v hb hk hs =
      ap₂ ◌∷◌ (get_or-set_ne buf v d (λ e. mod-ne len b k s hb (omega arith) hs (sym e))) (
        window-eq (set buf ((b + s) % len) v) (omega arith) refl
        ∙ window-set_past buf b (suc k) n s v hb (omega arith) hs
        ∙ window-eq buf (omega arith) refl)
