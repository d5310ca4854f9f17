-- ===== src/Moesi/MemWrites.antt =====
-- The buffers of the memory node (src/cache/moesi/memnode.cpp), the writes above all.
use nullrvsim.Prelude.{
  ℕ, ◌≡◌, refl, Bool, true, false, ltb, not, ◌&&◌, ◌||◌, Option, none, some, Option-cases, inl, inr,
  List, [], ◌∷◌, ◌++◌, arith,
}
use nullrvsim.Moesi.L1.{line_len}
use nullrvsim.Moesi.MemNode.{
  MemBuf, MemoryNode, accept, transfer, process, respond, receive, on_current_tick,
}

-- Every write has something left to do.
abbrev pub unfinished : List MemBuf → Bool
unfinished [] = true
unfinished (mb ∷ rest) = (not mb.op || ltb mb.processed line_len) && unfinished rest

unfinished-snoc :
    (l : List MemBuf) (mb : MemBuf)
    → unfinished l ≡ true
    → mb.processed ≡ 0
    → unfinished (l ++ mb ∷ []) ≡ true
unfinished-snoc [] mb h z = ground arith
unfinished-snoc (b ∷ l) mb h z = ground (arith, unfinished-snoc l mb (ground arith) z)

process-unfinished :
    (dwidth : ℕ) (l : List MemBuf) (memblk : List ℕ)
    → unfinished l ≡ true
    → unfinished (process dwidth l memblk).0 ≡ true
unfolding process transfer
process-unfinished dwidth [] memblk h = refl
process-unfinished dwidth (mb ∷ rest) memblk h =
    ground (arith, process-unfinished dwidth rest memblk (ground arith))

-- The answers of a step that does not fail.
abbrev pub answered : Option (Option (ℕ × List ℕ) × List MemBuf) → Bool
answered none = false
answered (some (sent, left)) = unfinished left

respond-answered : (l : List MemBuf) → unfinished l ≡ true → answered (respond l) ≡ true
unfolding respond
respond-answered [] h = refl
respond-answered (mb ∷ rest) h = ground (arith, respond-answered rest (ground arith))

receive-unfinished :
    (is_responsible : ℕ → Bool) (local_offset : ℕ → ℕ) (ports : List (Option (List ℕ)))
    (r : MemoryNode) {s : MemoryNode}
    → unfinished r.membufs ≡ true
    → receive is_responsible local_offset ports r ≡ some s
    → unfinished s.membufs ≡ true
unfolding receive accept
receive-unfinished is_responsible local_offset ports r h e = grind (arith, unfinished-snoc)

abbrev pub accepted : Option MemoryNode → Bool
accepted none = false
accepted (some s) = true

abbrev pub settled : Option (Option (ℕ × List ℕ) × MemoryNode) → Bool
settled none = false
settled (some (sent, s)) = unfinished s.membufs

-- When the message that a cycle receives, if any, is accepted, and every write among the buffers has
-- something left to do, the cycle ends without a failed assertion, and every write still has.
pub on_current_tick-settled :
    (is_responsible : ℕ → Bool) (local_offset : ℕ → ℕ) (ports : List (Option (List ℕ)))
    (can_send : Bool) (r : MemoryNode)
    → unfinished r.membufs ≡ true
    → accepted (receive is_responsible local_offset ports r) ≡ true
    → settled (on_current_tick is_responsible local_offset ports can_send r) ≡ true
unfolding on_current_tick
on_current_tick-settled is_responsible local_offset ports can_send r h a =
    elim (Option-cases (receive is_responsible local_offset ports r)) [
      | inl n ↦ absurd (ground arith)
      | inr (s, e) ↦
          let kept = receive-unfinished is_responsible local_offset ports r h e in
          let moved = process-unfinished s.dwidth s.membufs s.memblk kept in
          ground (arith, moved, respond-answered (process s.dwidth s.membufs s.memblk).0 moved)
    ]
