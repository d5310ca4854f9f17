-- ===== src/Bus/Joined.antt =====
-- The bytes of the packages that SymmetricMultiChannelBus::send makes, one after another.
use nullrvsim.Prelude.{
  drop-all, take-all, take-append_more, drop-drop, take-append_exact, ℕ, zero, suc, ◌+◌, ◌-◌, ◌*◌,
  ◌≡◌, ◌≤◌, min, refl, sym, ap, ◌∙◌, ltb, List, [], ◌++◌, length, take, drop, length-append,
  length-take, length-drop, take-append-drop, append_assoc, append-nil, Bool-cases, inl, inr, arith,
}
use nullrvsim.Cache.Lru.{repeat}
use native.Mathlib.Nat.{suc-mul}
use nullrvsim.Bus.Packs.{pack_data, resize}

-- The bytes of `k` packages from `pos` on.
unfoldable pub joined : ℕ → List ℕ → ℕ → ℕ → List ℕ
joined cwid data_ zero pos = []
joined cwid data_ (suc k) pos = pack_data cwid pos data_ ++ joined cwid data_ k (pos + cwid)

length-repeat : (n v : ℕ) → length (repeat n v) ≡ n
length-repeat zero v = refl
length-repeat (suc n) v = ap suc (length-repeat n v)

pub length-pack_data : (cwid pos : ℕ) (data_ : List ℕ) → length (pack_data cwid pos data_) ≡ cwid
unfolding pack_data
length-pack_data cwid pos data_ =
    let n = min cwid (length data_ - pos) in
    omega (
      arith,
      length-append (take n (drop pos data_)) (repeat (cwid - n) 0),
      length-take n (drop pos data_),
      length-drop pos data_,
      length-repeat (cwid - n) 0,
    )

-- A full package, and the last one.
pack_data-full :
    (cwid pos : ℕ) (data_ : List ℕ)
    → cwid ≤ length data_ - pos
    → pack_data cwid pos data_ ≡ take cwid (drop pos data_)
unfolding pack_data
pack_data-full cwid pos data_ h =
    let all : min cwid (length data_ - pos) ≡ cwid = omega arith in
    let none_left : cwid - cwid ≡ 0 = omega arith in
    ap (λ (n : ℕ). take n (drop pos data_) ++ repeat (cwid - n) 0) all
    ∙ ap (λ (n : ℕ). take cwid (drop pos data_) ++ repeat n 0) none_left
    ∙ append-nil (take cwid (drop pos data_))

pack_data-last :
    (cwid pos : ℕ) (data_ : List ℕ)
    → length data_ - pos ≤ cwid
    → pack_data cwid pos data_ ≡ drop pos data_ ++ repeat (cwid - (length data_ - pos)) 0
unfolding pack_data
pack_data-last cwid pos data_ h =
    let n = length data_ - pos in
    let all : min cwid n ≡ n = omega arith in
    ap (λ (m : ℕ). take m (drop pos data_) ++ repeat (cwid - m) 0) all
    ∙ ap (λ l. l ++ repeat (cwid - n) 0)
        (take-all n (drop pos data_) (omega (arith, length-drop pos data_)))

-- The packages hold the message from their place on.
pub take-joined :
    (cwid : ℕ) (data_ : List ℕ) (k pos : ℕ)
    → length data_ ≤ pos + k * cwid
    → take (length data_ - pos) (joined cwid data_ k pos) ≡ drop pos data_
unfolding joined
take-joined cwid data_ zero pos h =
    let none_left : length data_ - pos ≡ 0 = omega arith in
    ap (λ (n : ℕ). take {A = ℕ} n []) none_left ∙ sym (drop-all pos data_ (omega arith))
take-joined cwid data_ (suc k) pos h =
    let d = drop pos data_ in
    let size = length data_ - pos in
    let later = joined cwid data_ k (pos + cwid) in
    elim (Bool-cases (ltb cwid size)) [
      | inr last ↦
          let r : List ℕ = repeat (cwid - size) 0 in
          ap (λ l. take size (l ++ later)) (pack_data-last cwid pos data_ (ground arith))
          ∙ ap (take size) (append_assoc d r later)
          ∙ take-append_exact d (r ++ later) size (length-drop pos data_)
      | inl more ↦
          let first = take cwid d in
          let whole : length first ≡ cwid =
            ground (arith, length-take cwid d, length-drop pos data_) in
          let left : size - length first ≡ length data_ - (pos + cwid) = omega (arith, whole) in
          ap (λ l. take size (l ++ later)) (pack_data-full cwid pos data_ (ground arith))
          ∙ take-append_more first later size (ground (arith, whole))
          ∙ ap (λ (n : ℕ). first ++ take n later) left
          ∙ ap (λ l. first ++ l)
              (take-joined cwid data_ k (pos + cwid) (omega (arith, suc-mul k cwid))
                ∙ sym (drop-drop pos cwid data_))
          ∙ take-append-drop cwid d
    ]

length-resize : (n : ℕ) (l : List ℕ) → length (resize n l) ≡ n
unfolding resize
length-resize n l = omega (
  arith,
  length-append (take n l) (repeat (n - length l) 0),
  length-take n l,
  length-repeat (n - length l) 0,
)

-- Enough bytes are cut to size.
resize-take : (n : ℕ) (l : List ℕ) → n ≤ length l → resize n l ≡ take n l
unfolding resize
resize-take n l h =
    let none_left : n - length l ≡ 0 = omega (arith, h) in
    ap (λ (m : ℕ). take n l ++ repeat m 0) none_left ∙ append-nil (take n l)

length-joined :
    (cwid : ℕ) (data_ : List ℕ) (k pos : ℕ) → length (joined cwid data_ k pos) ≡ k * cwid
unfolding joined
length-joined cwid data_ zero pos = omega arith
length-joined cwid data_ (suc k) pos = omega (
  arith,
  length-append (pack_data cwid pos data_) (joined cwid data_ k (pos + cwid)),
  length-pack_data cwid pos data_,
  length-joined cwid data_ k (pos + cwid),
  suc-mul k cwid,
)

-- The bytes of all packages fill the buffer, whatever was in it, and it is cut to the message.
pub filled :
    (cwid : ℕ) (data_ buf : List ℕ) (cnt : ℕ)
    → length data_ ≤ cnt * cwid
    → (let bytes = joined cwid data_ cnt 0 in
        resize (length data_) (bytes ++ drop (length bytes) (resize (cnt * cwid) buf)))
      ≡ data_
filled cwid data_ buf cnt h =
    let bytes = joined cwid data_ cnt 0 in
    let all = length-joined cwid data_ cnt 0 in
    let whole : length data_ ≡ length data_ - 0 = omega arith in
    ap (λ l. resize (length data_) (bytes ++ l))
      (drop-all (length bytes) (resize (cnt * cwid) buf)
        (omega (arith, all, length-resize (cnt * cwid) buf)))
    ∙ ap (resize (length data_)) (append-nil bytes)
    ∙ resize-take (length data_) bytes (omega (arith, all, h))
    ∙ ap (λ (n : ℕ). take n bytes) whole
    ∙ take-joined cwid data_ cnt 0 (omega (arith, h))
