-- ===== src/Tests/Memory.antt =====
-- kernel/memory/malloc.c at small inputs.
use unos_kernel.Prelude.{
  ◌*◌, ◌+◌, ℕ, ◌≤◌, ◌<◌, ◌≡◌, ◌⊎◌, refl, false, none, some, List, [], ◌∷◌, arith, replicate,
  length-replicate, get_or-replicate,
}
use unos_kernel.Memory.PageAlloc.{
  base_phys_addr, page_size, Pages, page_addr, max_tracked_pages, is_free, scan, claim_page,
  palloc_page, pmm_free, dma_alloc_page, init_phys_allocator,
}
use unos_kernel.Memory.PageAlloc.Claim.{IsValid, IsTaken, palloc_page_lem}
use unos_kernel.Memory.PageAlloc.Mark.{IsMarked, is_reserved, init_phys_allocator-IsMarked}
use unos_kernel.Memory.PageAlloc.Owner.{
  World, Reach, granted, here, next, IsOwned, Reach-count, count,
}
use unos_kernel.Memory.Bump.{align_up, kmalloc_all}
use unos_kernel.Memory.Bump.Blocks.{Ordered, kmalloc_all-Ordered}

-- The bitmap as it is linked: all entries 0.
abbrev clear : List ℕ
clear = replicate 8192 0

abbrev boot : Pages
boot = record { bitmap = clear; last = 0 }

boot-IsValid : IsValid boot
boot-IsValid = record { size = length-replicate {A = ℕ} 8192 0; last_in = omega arith }

palloc_page_lem_example :
    ((i : ℕ) × (t : Pages) × (palloc_page boot ≡ (some (base_phys_addr + i * page_size), t))
      × IsTaken boot t i)
    ⊎ ((palloc_page boot ≡ (none, boot))
        × ((j : ℕ) → j < max_tracked_pages → is_free boot.bitmap j ≡ false))
palloc_page_lem_example = palloc_page_lem boot-IsValid

-- The first tracked page beyond the bitmap.
pmm_free_overrun : pmm_free boot 0x210_0000 ≡ none
unfolding pmm_free
pmm_free_overrun = refl

-- One page handed out.
abbrev start : World
start = record { pages = boot; held = [] }

abbrev later : World
later = record { pages = (claim_page boot 0).1; held = page_addr 0 ∷ [] }

start-IsOwned : IsOwned start
start-IsOwned = record {
  valid = boot-IsValid;
  bit = λ i h. omega (arith, get_or-replicate {A = ℕ} 8192 i 0 1 h);
  covered = λ i h. omega arith;
}

start-later : Reach start later
unfolding palloc_page scan
start-later = next here (granted start (page_addr 0) (claim_page boot 0).1 refl)

Reach-count_example : count (page_addr 0) later.held ≤ 1
Reach-count_example = Reach-count start-IsOwned start-later 0 (omega arith)

dma_alloc_page_runs : dma_alloc_page (1 ∷ 0 ∷ []) ≡ (some 0x800_1000, 1 ∷ 1 ∷ [])
unfolding dma_alloc_page scan
dma_alloc_page_runs = refl

-- A kernel from 2 MiB to 3 MiB, and the AHCI window at 32 MiB.
init_phys_allocator-IsMarked_example :
    (marked : List ℕ) × (init_phys_allocator 4001 (page_addr 256) 0x30_0000 (page_addr 7936) clear
      ≡ some marked)
    × IsMarked clear (is_reserved 256 0x30_0000 7936) marked
init_phys_allocator-IsMarked_example =
    init_phys_allocator-IsMarked 4000 256 0x30_0000 7936 clear (length-replicate {A = ℕ} 8192 0)
      (omega arith) (omega arith) (omega arith) (omega arith)

align_up_runs : align_up 0x1234 0x1000 ≡ 0x2000
unfolding align_up
align_up_runs = refl

kmalloc_all-Ordered_example :
    Ordered 0xFFFF_8000_0000_0000 (kmalloc_all 0xFFFF_8000_0000_0000 (13 ∷ 1 ∷ 4096 ∷ []))
kmalloc_all-Ordered_example =
    kmalloc_all-Ordered (13 ∷ 1 ∷ 4096 ∷ []) 0xFFFF_8000_0000_0000 (omega arith)
