-- ===== src/Memory/PageAlloc.antt =====
-- The page bitmaps of kernel/memory/malloc.c: palloc_page, free_phys_page, pmm_free,
-- dma_alloc_page and init_phys_allocator.
pub mod Claim
pub mod Free
pub mod Mark
pub mod Owner
use unos_kernel.Prelude.{
  ℕ, zero, suc, ◌+◌, ◌-◌, ◌*◌, ◌/◌, ◌%◌, ◌^◌, Bool, ◌&&◌, Option, none, some, List, ltb, ◌==◌,
  if◌then◌else◌, get_or, set, ◌>>=◌,
}

abbrev pub page_size : ℕ
page_size = 0x1000

abbrev pub max_tracked_pages : ℕ
max_tracked_pages = 8192

abbrev pub base_phys_addr : ℕ
base_phys_addr = 0x10_0000

abbrev pub dma_base_addr : ℕ
dma_base_addr = 0x800_0000

abbrev pub dma_max_pages : ℕ
dma_max_pages = 512

-- `page_bitmap` and `last_allocated_index`
pub record Pages : Type 0 where
  pub bitmap : List ℕ
  pub last : ℕ

-- `!bitmap[i]`. A read out of range counts as taken; the invariants rule it out.
abbrev pub is_free : List ℕ → ℕ → Bool
is_free bitmap i = get_or bitmap i 1 == 0

-- `for (; left > 0; i++, left--) if (!bitmap[i]) ...`: the first free index from `i` on.
unfoldable pub scan : ℕ → ℕ → List ℕ → Option ℕ
scan zero i bitmap = none
scan (suc left) i bitmap =
    let rest = scan left (i + 1) bitmap in if is_free bitmap i then some i else rest

abbrev pub page_addr : ℕ → ℕ
page_addr i = base_phys_addr + i * page_size

-- The body of both loops of `palloc_page` once a free index is found.
abbrev pub claim_page : Pages → ℕ → Option ℕ × Pages
claim_page s i = (some (page_addr i), record { bitmap = set s.bitmap i 1; last = i + 1 })

-- `none` is NULL.
unfoldable pub palloc_page : Pages → Option ℕ × Pages
palloc_page s = elim (scan (max_tracked_pages - s.last) s.last s.bitmap) [
  | some i ↦ claim_page s i
  | none ↦ elim (scan s.last 0 s.bitmap) [ some i ↦ claim_page s i | none ↦ (none, s) ]
]

-- `int index` keeps the low 32 bits, and is negative from 2 ^ 31 on.
pub free_phys_page : Pages → ℕ → Pages
free_phys_page s phys =
    if ltb phys base_phys_addr
    then s
    else (let index = (phys - base_phys_addr) / page_size % 2 ^ 32 in
        if ltb index (2 ^ 31) && ltb index max_tracked_pages
        then record s { bitmap = set s.bitmap index 0 }
        else s)

-- `none` is a write outside of `page_bitmap`: there is no upper bound in the code.
unfoldable pub pmm_free : Pages → ℕ → Option Pages
pmm_free s addr =
    if ltb addr base_phys_addr
    then some s
    else (let index = (addr - base_phys_addr) / page_size in
        if ltb index max_tracked_pages
        then some (record s { bitmap = set s.bitmap index 0 })
        else none)

-- `dma_bitmap`
unfoldable pub dma_alloc_page : List ℕ → Option ℕ × List ℕ
dma_alloc_page bitmap = elim (scan dma_max_pages 0 bitmap) [
  | some i ↦ (some (dma_base_addr + i * page_size), set bitmap i 1)
  | none ↦ (none, bitmap)
]

-- One loop of `init_phys_allocator`: the pages from `addr` up to `end`. `none`: out of fuel.
pub mark_range : ℕ → ℕ → ℕ → List ℕ → Option (List ℕ)
mark_range zero addr end bitmap = none
mark_range (suc fuel) addr end bitmap =
    let index = (addr + 2 ^ 64 - base_phys_addr) % 2 ^ 64 / page_size in
    let marked = if ltb index max_tracked_pages then set bitmap index 1 else bitmap in
    let rest = mark_range fuel ((addr + page_size) % 2 ^ 64) end marked in
    if ltb addr end then rest else some bitmap

abbrev pub ahci_base : ℕ
ahci_base = 0x80_0000

-- The four loops, in order. The linker gives `kernel_start` and `kernel_end`.
pub init_phys_allocator : ℕ → ℕ → ℕ → ℕ → List ℕ → Option (List ℕ)
init_phys_allocator fuel kernel_start kernel_end abar bitmap = do
  b ← mark_range fuel kernel_start kernel_end bitmap
  b ← mark_range fuel ahci_base (ahci_base + 0x20_0000) b
  b ← mark_range fuel abar ((abar + 0x20_0000) % 2 ^ 64) b
  mark_range fuel 0x40_0000 0x100_0000 b
