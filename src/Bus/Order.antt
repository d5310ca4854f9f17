-- ===== src/Bus/Order.antt =====
-- Packages in another order: kept in the order of their indices, they are the same list again.
use nullrvsim.Prelude.{
  ℕ, suc, subst, ◌<◌, ◌≤◌, ◌≡◌, ◌≢◌, refl, sym, ap, ◌∙◌, List, [], ◌∷◌, ◌++◌, length, append-nil,
  append_assoc, arith,
}
use mathlib.Core.List.{Permᴰ}
use nullrvsim.Bus.Packs.{MsgPack}
use nullrvsim.Bus.Node.{order_insert}

abbrev pub All : (MsgPack → Type 0) → List MsgPack → Type 0
All P [] = Unit
All P (x ∷ xs) = P x × All P xs

-- No index stands twice.
abbrev pub Distinct : List MsgPack → Type 0
Distinct [] = Unit
Distinct (x ∷ xs) = All (λ y. x.pac_idx ≢ y.pac_idx) xs × Distinct xs

pub Perm-All : (P : MsgPack → Type 0) {xs ys : List MsgPack} → Permᴰ xs ys → All P xs → All P ys
Perm-All P Permᴰ.nil h = h
Perm-All P (Permᴰ.cons e s) h = (subst P e h.0, Perm-All P s h.1)
Perm-All P (Permᴰ.swap d e) h = (subst P e h.1.0, (subst P d h.0, h.1.1))
Perm-All P (Permᴰ.trans s t) h = Perm-All P t (Perm-All P s h)

Perm-Distinct : {xs ys : List MsgPack} → Permᴰ xs ys → Distinct xs → Distinct ys
Perm-Distinct Permᴰ.nil h = h
Perm-Distinct (Permᴰ.cons {l₂ = ys} e s) h = (
  subst (λ (z : MsgPack). All (λ y. z.pac_idx ≢ y.pac_idx) ys) e (Perm-All _ s h.0),
  Perm-Distinct s h.1,
)
Perm-Distinct (Permᴰ.swap {l = l} d e) h = (
  (
    λ q.
        h.0.0 (ap (λ (z : MsgPack). z.pac_idx) d ∙ sym q ∙ sym (ap (λ (z : MsgPack). z.pac_idx) e)),
    subst (λ (z : MsgPack). All (λ y. z.pac_idx ≢ y.pac_idx) l) e h.1.0,
  ),
  (subst (λ (z : MsgPack). All (λ y. z.pac_idx ≢ y.pac_idx) l) d h.0.1, h.1.1),
)
Perm-Distinct (Permᴰ.trans s t) h = Perm-Distinct t (Perm-Distinct s h)

pub Perm-length : {xs ys : List MsgPack} → Permᴰ xs ys → length xs ≡ length ys
Perm-length Permᴰ.nil = refl
Perm-length (Permᴰ.cons e s) = ap suc (Perm-length s)
Perm-length (Permᴰ.swap d e) = refl
Perm-length (Permᴰ.trans s t) = Perm-length s ∙ Perm-length t

-- What waits after packages have come.
unfoldable pub gather : List MsgPack → List MsgPack → List MsgPack
gather [] l = l
gather (p ∷ ps) l = gather ps (order_insert p l)

order_insert_comm :
    (x y : MsgPack) (l : List MsgPack)
    → x.pac_idx ≢ y.pac_idx
    → order_insert x (order_insert y l) ≡ order_insert y (order_insert x l)
unfolding order_insert
order_insert_comm x y [] h = ground arith
order_insert_comm x y (z ∷ l) h = ground (arith, order_insert_comm x y l h)

gather-Perm :
    {xs ys : List MsgPack} (l : List MsgPack)
    → Permᴰ xs ys
    → Distinct xs
    → gather xs l ≡ gather ys l
unfolding gather
gather-Perm l Permᴰ.nil h = refl
gather-Perm l (Permᴰ.cons {a = x} {l₂ = ys} e s) h =
    gather-Perm (order_insert x l) s h.1 ∙ ap (λ z. gather ys (order_insert z l)) e
gather-Perm l (Permᴰ.swap {a = x} {b = y} {a' = a'} {l = xs} d e) h =
    ap (gather xs) (sym (order_insert_comm x y l h.0.0))
    ∙ ap (λ z. gather xs (order_insert x (order_insert z l))) e
    ∙ ap (λ z. gather xs (order_insert z (order_insert a' l))) d
gather-Perm l (Permᴰ.trans s t) h = gather-Perm l s h ∙ gather-Perm l t (Perm-Distinct s h)

-- Indices that grow.
abbrev pub Ascending : ℕ → List MsgPack → Type 0
Ascending k [] = Unit
Ascending k (x ∷ xs) = (k ≤ x.pac_idx) × Ascending (suc x.pac_idx) xs

-- Only smaller indices.
abbrev Below : ℕ → List MsgPack → Type 0
Below k l = All (λ y. y.pac_idx < k) l

order_insert-last :
    (p : MsgPack) (l : List MsgPack) → Below p.pac_idx l → order_insert p l ≡ l ++ p ∷ []
unfolding order_insert
order_insert-last p [] h = refl
order_insert-last p (x ∷ l) h = ground (arith, order_insert-last p l h.1)

Below-mono : (k m : ℕ) (l : List MsgPack) → k ≤ m → Below k l → Below m l
Below-mono k m [] h b = tt
Below-mono k m (x ∷ l) h b = (omega (arith, b.0), Below-mono k m l h b.1)

Below-snoc :
    (p : MsgPack) (l : List MsgPack) → Below p.pac_idx l → Below (suc p.pac_idx) (l ++ p ∷ [])
Below-snoc p [] b = (omega arith, tt)
Below-snoc p (x ∷ l) b = (omega (arith, b.0), Below-snoc p l b.1)

-- Packages that come in order wait in order.
gather-Ascending :
    (xs l : List MsgPack) (k : ℕ) → Ascending k xs → Below k l → gather xs l ≡ l ++ xs
unfolding gather
gather-Ascending [] l k h b = sym (append-nil l)
gather-Ascending (p ∷ ps) l k h b =
    let small = Below-mono k p.pac_idx l h.0 b in
    ap (gather ps) (order_insert-last p l small)
    ∙ gather-Ascending ps (l ++ p ∷ []) (suc p.pac_idx) h.1 (Below-snoc p l small)
    ∙ append_assoc l (p ∷ []) ps

Ascending-ne :
    (k : ℕ) (x : MsgPack) (xs : List MsgPack)
    → x.pac_idx < k
    → Ascending k xs
    → All (λ y. x.pac_idx ≢ y.pac_idx) xs
Ascending-ne k x [] h a = tt
Ascending-ne k x (y ∷ ys) h a = (
  λ e. absurd (omega (arith, a.0, e)),
  Ascending-ne (suc y.pac_idx) x ys (omega (arith, a.0)) a.1,
)

Ascending-Distinct : (k : ℕ) (xs : List MsgPack) → Ascending k xs → Distinct xs
Ascending-Distinct k [] a = tt
Ascending-Distinct k (x ∷ xs) a =
    (Ascending-ne (suc x.pac_idx) x xs (omega arith) a.1, Ascending-Distinct (suc x.pac_idx) xs a.1)

-- Whatever the order in which they come, packages with growing indices wait in order.
pub gather_lem : {xs ys : List MsgPack} → Permᴰ xs ys → Ascending 0 xs → gather ys [] ≡ xs
gather_lem {xs} s a =
    sym (gather-Perm [] s (Ascending-Distinct 0 xs a)) ∙ gather-Ascending xs [] 0 a tt
