-- ===== src/Bus/Latency.antt =====
-- The route latency of a node.
use nullrvsim.Prelude.{ℕ, zero, suc, ◌≡◌, refl, sym, ap, ◌∙◌, List, [], ◌∷◌}
use mathlib.Core.Path.{fun_ext}
use nullrvsim.Bus.Packs.{MsgPack}
use nullrvsim.Bus.Node.{Edge, Advanced, advance_at, advance}

-- The loop counts the cycles of an entry down before it goes on.
pub advance_at-zero :
    (route : ℕ → ℕ) (txs : List (ℕ × ℕ)) (p : MsgPack) (cycles : ℕ) (edges : List Edge)
    (next : List Edge → Advanced)
    → advance_at route txs p cycles edges next ≡ advance_at route txs p 0 edges next
unfolding advance_at
advance_at-zero route txs p zero edges next = refl
advance_at-zero route txs p (suc zero) edges next = refl
advance_at-zero route txs p (suc (suc cycles)) edges next =
    advance_at-zero route txs p (suc cycles) edges next

-- The same packages, with other cycles to wait.
abbrev pub with_latency : (MsgPack → ℕ) → List MsgPack → List (MsgPack × ℕ)
with_latency cycles [] = []
with_latency cycles (p ∷ ps) = (p, cycles p) ∷ with_latency cycles ps

-- The cycles that packages have to wait in the pipeline of a node make no difference: the loop over the
-- pipeline leaves the same packages and edges whatever they are.
pub advance-with_latency :
    (route : ℕ → ℕ) (txs : List (ℕ × ℕ)) (ps : List MsgPack) (edges : List Edge) (a b : MsgPack → ℕ)
    → advance route txs (with_latency a ps) edges ≡ advance route txs (with_latency b ps) edges
unfolding advance
advance-with_latency route txs [] edges a b = refl
advance-with_latency route txs (p ∷ ps) edges a b =
    advance_at-zero route txs p (a p) edges (advance route txs (with_latency a ps))
    ∙ ap (advance_at route txs p 0 edges) (fun_ext (λ es. advance-with_latency route txs ps es a b))
    ∙ sym (advance_at-zero route txs p (b p) edges (advance route txs (with_latency b ps)))
