-- ===== src/PageMap/Segments.antt =====
-- The list of mapped segments, from high addresses to low ones: the loops of alloc_mmap,
-- alloc_mmap_fixed and free_mmap over `mmap_segments`.
use nullrvsim.Prelude.{ℕ, ltb, leb, ◌&&◌, ◌||◌, if◌then◌else◌, List, [], ◌∷◌}
use nullrvsim.Prelude.Words.{add64, sub64}

-- VAddrSeg; `info` is a string.
pub record Segment : Type 0 where
  pub vpindex : ℕ
  pub vpcnt : ℕ
  pub info : List ℕ

-- The first gap below `top`, searched from above, that has room for the segment; the segment goes
-- in there. The answer has its first page.
unfoldable pub place : ℕ → List ℕ → ℕ → List Segment → ℕ × List Segment
place vpcnt info top [] =
    (sub64 top vpcnt, record { vpindex = sub64 top vpcnt; vpcnt = vpcnt; info = info } ∷ [])
place vpcnt info top (s ∷ rest) =
    let below = place vpcnt info s.vpindex rest in
    if leb (add64 (add64 s.vpindex s.vpcnt) vpcnt) top
    then (
      sub64 top vpcnt,
      record { vpindex = sub64 top vpcnt; vpcnt = vpcnt; info = info } ∷ s ∷ rest,
    )
    else (below.0, s ∷ below.1)

-- Before the first segment that ends at or below its start.
unfoldable pub place_fixed : Segment → List Segment → List Segment
place_fixed new [] = new ∷ []
place_fixed new (s ∷ rest) =
    let below = place_fixed new rest in
    if leb (add64 s.vpindex s.vpcnt) new.vpindex then new ∷ s ∷ rest else s ∷ below

-- The pages from `vpi` up to `vpi2` are cut out of every segment.
unfoldable pub cut : ℕ → ℕ → List Segment → List Segment
cut vpi vpi2 [] = []
cut vpi vpi2 (s ∷ segs) =
    let i = s.vpindex in
    let i2 = add64 s.vpindex s.vpcnt in
    let rest = cut vpi vpi2 segs in
    if leb vpi2 i || leb i2 vpi
    then s ∷ rest
    else if ltb i vpi && ltb vpi2 i2
    then record s { vpindex = vpi2; vpcnt = sub64 i2 vpi2 }
      ∷ record s { vpcnt = sub64 vpi i }
      ∷ rest
    else if leb vpi i && leb i2 vpi2
    then rest
    else if ltb vpi2 i2
    then record s { vpindex = vpi2; vpcnt = sub64 i2 vpi2 } ∷ rest
    else if ltb i vpi
    then record s { vpcnt = sub64 vpi i } ∷ rest
    else s ∷ rest
