-- ===== src/Bus/Edges.antt =====
-- The edges of the bus: nothing is lost or doubled, and no package overtakes another.
use nullrvsim.Prelude.{
  ℕ, ◌+◌, ◌≡◌, refl, ap, ltb, Bool-cases, inl, inr, Option, none, some, List, [], ◌∷◌, ◌++◌, length,
  arith,
}
use nullrvsim.Bus.Packs.{MsgPack}
use nullrvsim.Bus.Node.{Edge}
use nullrvsim.Bus.Tick.{pass_channels, process_edge}

abbrev pub packs_of : Option MsgPack → List MsgPack
packs_of none = []
packs_of (some p) = p ∷ []

-- The packages on each channel, in the order in which they leave.
abbrev pub on_channels : List (Option MsgPack) → List (Option MsgPack) → List (List MsgPack)
on_channels (i ∷ ins) (o ∷ outs) = (packs_of o ++ packs_of i) ∷ on_channels ins outs
on_channels [] outs = []
on_channels (i ∷ ins) [] = []

pass_channels-on_channels :
    (width total : ℕ) (ins outs : List (Option MsgPack))
    → on_channels (pass_channels width total ins outs).0 (pass_channels width total ins outs).1
      ≡ on_channels ins outs
unfolding pass_channels
pass_channels-on_channels width total [] outs = refl
pass_channels-on_channels width total (none ∷ ins) [] = refl
pass_channels-on_channels width total (some p ∷ ins) [] = refl
pass_channels-on_channels width total (none ∷ ins) (o ∷ outs) =
    ap (λ l. (packs_of o ++ []) ∷ l) (pass_channels-on_channels width total ins outs)
pass_channels-on_channels width total (some p ∷ ins) (none ∷ outs) =
    elim (Bool-cases (ltb total width)) [
      | inl room ↦ ground (arith, pass_channels-on_channels width (total + length p.data_) ins outs)
      | inr full ↦ ground (arith, pass_channels-on_channels width total ins outs)
    ]
pass_channels-on_channels width total (some p ∷ ins) (some q ∷ outs) =
    ap (λ l. (q ∷ p ∷ []) ∷ l) (pass_channels-on_channels width total ins outs)

-- A cycle of an edge leaves the packages on each channel as they are, in the same order.
pub process_edge-on_channels :
    (width : ℕ) (edge : Edge)
    → on_channels (process_edge width edge).input (process_edge width edge).output
      ≡ on_channels edge.input edge.output
unfolding process_edge
process_edge-on_channels width edge = pass_channels-on_channels width 0 edge.input edge.output
