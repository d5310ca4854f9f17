-- ===== src/PageMap/Table.antt =====
-- ThreadPageTable. The allocator, which the source reaches through a pointer, is part of the state.
-- `none` is a failed assertion.
use nullrvsim.Prelude.{
  ℕ, zero, suc, ◌+◌, ◌-◌, ◌*◌, ◌/◌, ◌%◌, ◌^◌, max, bit_and, Bool, false, ltb, leb, if◌then◌else◌,
  Option, none, some, List,
}
use nullrvsim.Prelude.Words.{add64, sub64}
use nullrvsim.Prelude.Assoc.{find, erase, insert}
use nullrvsim.Operation.Signed.{ℤ, pos, negsuc}
use nullrvsim.PageMap.Alloc.{Allocator, alloc, free}
use nullrvsim.PageMap.Segments.{Segment, place, place_fixed, cut}

-- PPageEntry
pub record Entry : Type 0 where
  pub ppi : ℕ
  pub flg : ℕ
  pub fd : ℤ
  pub offset : ℕ

pub record Table : Type 0 where
  pub ppman : Allocator
  pub brk_va : ℕ
  pub mmap_segments : List Segment
  pub pgtable : List (ℕ × Entry)
  pub dyn_lib_brk : ℕ

abbrev pub max_mmap_vaddr : ℕ
max_mmap_vaddr = 0xb00_0000_0000

-- ALIGN(x, PAGE_LEN_BYTE)
abbrev pub align : ℕ → ℕ
align x = add64 x 4095 / 4096 * 4096

-- `index << PAGE_ADDR_OFFSET`
abbrev pub page_addr : ℕ → ℕ
page_addr index = index * 4096 % 2 ^ 64

abbrev pub no_file : ℤ
no_file = negsuc 0

unfoldable pub is_file : ℤ → Bool
is_file (pos n) = ltb 0 n
is_file (negsuc n) = false

-- The loop of __alloc_multi_page for the next `n` pages.
unfoldable pub alloc_pages : ℕ → ℕ → ℕ → ℤ → ℕ → Table → Option Table
alloc_pages zero vpi flag fd offset t = some t
alloc_pages (suc n) vpi flag fd offset t = elim (find vpi t.pgtable) [
  | some e ↦ none
  | none ↦ elim (alloc t.ppman) [
    | none ↦ none
    | some (ppi, ppman) ↦
        let entry : Entry = record { ppi = ppi; flg = flag; fd = fd; offset = offset } in
        alloc_pages n (vpi + 1) flag fd (if is_file fd then add64 offset 4096 else offset)
          (record t { ppman = ppman; pgtable = insert vpi entry t.pgtable })
  ]
]

-- The loop runs up to `vpindex + vpcnt` in 64 bits.
unfoldable pub alloc_multi_page : ℕ → ℕ → ℕ → ℤ → ℕ → Table → Option Table
alloc_multi_page vpindex vpcnt flag fd offset t =
    alloc_pages (add64 vpindex vpcnt - vpindex) vpindex flag fd offset t

-- The loop of free_mmap over the page table.
unfoldable pub release : ℕ → ℕ → Table → Option Table
release zero i t = some t
release (suc n) i t = elim (find i t.pgtable) [
  | none ↦ release n (i + 1) t
  | some e ↦ elim (free e.ppi t.ppman) [
    | none ↦ none
    | some (last, ppman) ↦
        release n (i + 1) (record t { ppman = ppman; pgtable = erase i t.pgtable })
  ]
]

unfoldable pub free_mmap : ℕ → ℕ → Table → Option Table
free_mmap va size t =
    let vpi = va / 4096 in
    let vpi2 = align (add64 va size) / 4096 in
    release (vpi2 - vpi) vpi (record t { mmap_segments = cut vpi vpi2 t.mmap_segments })

unfoldable pub alloc_mmap_fixed : ℕ → ℕ → ℕ → ℤ → ℕ → List ℕ → Table → Option (ℕ × Table)
alloc_mmap_fixed addr size flag fd offset info t =
    let vpi = addr / 4096 in
    let vpi2 = align (add64 addr size) / 4096 in
    if leb (page_addr vpi) t.brk_va then some (0, t) else elim (free_mmap addr size t) [
      | none ↦ none
      | some t₁ ↦
          let seg : Segment = record { vpindex = vpi; vpcnt = sub64 vpi2 vpi; info = info } in
          let placed = record t₁ { mmap_segments = place_fixed seg t₁.mmap_segments } in
          elim (alloc_multi_page vpi (sub64 vpi2 vpi) flag fd offset placed) [
            | none ↦ none
            | some t₂ ↦ some (addr, t₂)
          ]
    ]

unfoldable pub alloc_mmap : ℕ → ℕ → ℤ → ℕ → List ℕ → Table → Option (ℕ × Table)
alloc_mmap size flag fd offset info t =
    let vpcnt = align size / 4096 in
    let placed = place vpcnt info (max_mmap_vaddr / 4096) t.mmap_segments in
    if leb (page_addr placed.0) t.brk_va
    then none
    else elim (alloc_multi_page placed.0 vpcnt flag fd offset
        (record t { mmap_segments = placed.1 })) [
          | none ↦ none
          | some t₁ ↦ some (page_addr placed.0, t₁)
        ]

-- The flags R, W and X are the three low bits.
unfoldable pub init_elf_seg : ℕ → ℕ → ℕ → Table → Option Table
init_elf_seg start size flag t =
    let vpindex = start / 4096 in
    let vpcnt = sub64 (align (add64 start size) / 4096) vpindex in
    elim (alloc_multi_page vpindex vpcnt (bit_and flag 7) no_file 0 t) [
      | none ↦ none
      | some t₁ ↦ some (record t₁ { brk_va = max t₁.brk_va (align (add64 start size)) })
    ]

unfoldable pub init_dynlib_seg : ℕ → ℕ → ℕ → Table → Option Table
init_dynlib_seg start size flag t =
    let vpindex = start / 4096 in
    let vpcnt = sub64 (align (add64 start size) / 4096) vpindex in
    elim (alloc_multi_page vpindex vpcnt (bit_and flag 7) no_file 0 t) [
      | none ↦ none
      | some t₁ ↦ some (record t₁ { dyn_lib_brk = max t₁.dyn_lib_brk (align (add64 start size)) })
    ]

unfoldable pub alloc_brk : ℕ → Table → Option (ℕ × Table)
alloc_brk brk t =
    if leb brk t.brk_va
    then some (t.brk_va, t)
    else let vpindex = align t.brk_va / 4096 in
      elim (alloc_multi_page vpindex (sub64 (align brk / 4096) vpindex) 3 no_file 0 t) [
        | none ↦ none
        | some t₁ ↦ some (brk, record t₁ { brk_va = brk })
      ]
