-- ===== src/Bus/Reorder.antt =====
-- The packages of a message may arrive in any order: a node hands them on in the order of their indices.
use nullrvsim.Prelude.{
  ℕ, zero, suc, ◌+◌, ◌^◌, subst, ◌<◌, ◌≤◌, ◌≡◌, ◌≢◌, refl, ap, ◌∙◌, Option, none, some, List, [],
  ◌∷◌, length, arith,
}
use mathlib.Core.List.{Permᴰ}
use nullrvsim.Prelude.Assoc.{find, assign, erase, find-assign_self}
use nullrvsim.Bus.Packs.{MsgPack, make_packs}
use nullrvsim.Bus.Node.{Node, Wires, order_insert, hand_over, waiting, arrive}
use nullrvsim.Bus.Order.{All, Perm-All, Perm-length, gather, Ascending, gather_lem}

-- The packages arrive one after another.
unfoldable pub arrive_all : List MsgPack → Node → Wires → Option (Node × Wires)
arrive_all [] node w = some (node, w)
arrive_all (p ∷ ps) node w = elim (arrive p node w) [
  | none ↦ none
  | some (n, v) ↦ arrive_all ps n v
]

-- Packages of one message.
abbrev pub OfMessage : MsgPack → List MsgPack → Type 0
OfMessage head xs =
    All
      (λ p.
        (p.xmtid ≡ head.xmtid)
        × (p.dst ≡ head.dst)
        × (p.cha ≡ head.cha)
        × (p.pac_cnt ≡ head.pac_cnt))
      xs

pub length-order_insert :
    (p : MsgPack) (l : List MsgPack) → length (order_insert p l) ≡ suc (length l)
unfolding order_insert
length-order_insert p [] = refl
length-order_insert p (x ∷ l) = ground (arith, length-order_insert p l)

-- While packages are missing a package waits; the last one takes all of them along.
arrive-waits :
    (p : MsgPack) (node : Node) (w : Wires)
    → 1 < p.pac_cnt
    → suc (length (waiting p.xmtid node)) ≢ p.pac_cnt
    → arrive p node w
      ≡ some (
        record node {
          order_buf = assign p.xmtid (order_insert p (waiting p.xmtid node)) node.order_buf;
        },
        w,
      )
unfolding arrive
arrive-waits p node w h n = ground (arith, length-order_insert p (waiting p.xmtid node))

arrive-last :
    (p : MsgPack) (node : Node) (w : Wires) {v : Wires}
    → 1 < p.pac_cnt
    → suc (length (waiting p.xmtid node)) ≡ p.pac_cnt
    → hand_over node.port p.dst p.cha (order_insert p (waiting p.xmtid node)) w ≡ some v
    → arrive p node w ≡ some (record node { order_buf = erase p.xmtid node.order_buf }, v)
unfolding arrive
arrive-last p node w h n e = ground (arith, length-order_insert p (waiting p.xmtid node))

collect :
    (head : MsgPack) (ps : List MsgPack) (p : MsgPack) (node : Node) (w : Wires) {v : Wires}
    → 1 < head.pac_cnt
    → OfMessage head (p ∷ ps)
    → length (waiting head.xmtid node) + suc (length ps) ≡ head.pac_cnt
    → hand_over node.port head.dst head.cha (gather (p ∷ ps) (waiting head.xmtid node)) w ≡ some v
    → (n : Node) × (arrive_all (p ∷ ps) node w ≡ some (n, v))
unfolding arrive_all gather
collect head [] p node w {v} m h c e = (
  record node { order_buf = erase p.xmtid node.order_buf },
  ground (arith, arrive-last p node w {v = v}),
)
collect head (q ∷ ps) p node w {v} m h c e =
    let more = order_insert p (waiting p.xmtid node) in
    let next = record node { order_buf = assign p.xmtid more node.order_buf } in
    let now : waiting head.xmtid next ≡ order_insert p (waiting head.xmtid node) =
      ground (arith, find-assign_self p.xmtid more node.order_buf) in
    let (n, run) =
      collect head ps q next w {v = v} m h.1
        (ground (arith, now, length-order_insert p (waiting head.xmtid node)))
        (ap (λ l. hand_over node.port head.dst head.cha (gather (q ∷ ps) l) w) now ∙ e) in
    (n, ground (arith, arrive-waits p node w))

-- A package that is a message by itself.
arrive-alone :
    (p : MsgPack) (node : Node) (w : Wires) {v : Wires}
    → p.pac_cnt ≡ 1
    → hand_over node.port p.dst p.cha (p ∷ []) w ≡ some v
    → arrive_all (p ∷ []) node w ≡ some (node, v)
unfolding arrive arrive_all
arrive-alone p node w c e = ground arith

-- Whatever the order in which the packages of a message reach their node, the node hands them to the
-- buffer of their port and channel in the order of their indices, all at once, when none was waiting
-- before and the port is one of the node's.
pub arrive_all-Perm :
    (head : MsgPack) (xs ys : List MsgPack) (node : Node) (w : Wires) {v : Wires}
    → Permᴰ xs ys
    → Ascending 0 xs
    → OfMessage head xs
    → length xs ≡ head.pac_cnt
    → 0 < head.pac_cnt
    → find head.xmtid node.order_buf ≡ none
    → hand_over node.port head.dst head.cha xs w ≡ some v
    → (n : Node) × (arrive_all ys node w ≡ some (n, v))
unfolding gather order_insert
arrive_all-Perm head xs [] node w s a o c m f e = absurd (omega (arith, Perm-length s))
arrive_all-Perm head xs (y ∷ []) node w {v} s a o c m f e =
    let alone : y ∷ [] ≡ xs = gather_lem s a in
    let same = (Perm-All _ s o).0 in
    (
      node,
      arrive-alone y node w {v = v} (omega (arith, c, Perm-length s, same.3))
          (ground (arith, alone, same.1, same.2, e)),
    )
arrive_all-Perm head xs (y ∷ z ∷ ys) node w {v} s a o c m f e =
    let none_yet : waiting head.xmtid node ≡ [] = ground arith in
    collect head (z ∷ ys) y node w {v = v} (omega (arith, c, Perm-length s)) (Perm-All _ s o)
      (ground (arith, none_yet, Perm-length s))
      (ap (λ l. hand_over node.port head.dst head.cha (gather (y ∷ z ∷ ys) l) w) none_yet
        ∙ ap (λ l. hand_over node.port head.dst head.cha l w) (gather_lem s a)
        ∙ e)

pub make_packs-Ascending :
    (head : MsgPack) (cwid : ℕ) (data_ : List ℕ) (k i pos : ℕ)
    → i + k ≤ 2 ^ 16
    → Ascending i (make_packs head cwid data_ k i pos)
unfolding make_packs
make_packs-Ascending head cwid data_ zero i pos h = tt
make_packs-Ascending head cwid data_ (suc k) i pos h =
    let rest = make_packs head cwid data_ k (i + 1) (pos + cwid) in
    (
      omega arith,
      subst (λ (m : ℕ). Ascending m rest) (omega arith)
          (make_packs-Ascending head cwid data_ k (i + 1) (pos + cwid) (omega arith)),
    )

pub make_packs-OfMessage :
    (head : MsgPack) (cwid : ℕ) (data_ : List ℕ) (k i pos : ℕ)
    → OfMessage head (make_packs head cwid data_ k i pos)
unfolding make_packs
make_packs-OfMessage head cwid data_ zero i pos = tt
make_packs-OfMessage head cwid data_ (suc k) i pos =
    ((refl, refl, refl, refl), make_packs-OfMessage head cwid data_ k (i + 1) (pos + cwid))
