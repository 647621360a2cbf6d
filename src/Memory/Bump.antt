-- ===== src/Memory/Bump.antt =====
-- The allocators of kernel/memory/malloc.c that only move a pointer: kmalloc and palloc_aligned.
-- A `size_t` and an address are numbers below 2 ^ 64.
pub mod Align
pub mod Blocks
use unos_kernel.Prelude.{ℕ, ◌+◌, ◌-◌, ◌%◌, ◌^◌, List, [], ◌∷◌, ltb, ◌==◌, if◌then◌else◌, bit_and}

abbrev pub kernel_heap_start : ℕ
kernel_heap_start = 0xFFFF_8000_0000_0000

abbrev pub heap_align : ℕ
heap_align = 8

-- `(size + align - 1) & ~(align - 1)`
abbrev pub round_up : ℕ → ℕ → ℕ
round_up size align =
    bit_and ((size + align + 2 ^ 64 - 1) % 2 ^ 64) (2 ^ 64 - 1 - (align + 2 ^ 64 - 1) % 2 ^ 64)

unfoldable pub align_up : ℕ → ℕ → ℕ
align_up size align = if ltb align 1 then size else round_up size align

-- The state is `heap_curr`; the result is the pointer and the new state.
pub kmalloc : ℕ → ℕ → ℕ × ℕ
unfolding align_up
kmalloc heap_curr size =
    let aligned = align_up heap_curr heap_align in
    let size' = align_up size heap_align in (aligned, (aligned + size') % 2 ^ 64)

-- A sequence of requests: the blocks (pointer and requested size) in order.
pub kmalloc_all : ℕ → List ℕ → List (ℕ × ℕ)
kmalloc_all heap_curr [] = []
kmalloc_all heap_curr (size ∷ sizes) =
    let (ptr, heap) = kmalloc heap_curr size in (ptr, size) ∷ kmalloc_all heap sizes

-- The state is `next_free_phys`.
pub palloc_aligned : ℕ → ℕ → ℕ → ℕ × ℕ
palloc_aligned next_free size align =
    let align' = if ltb align 8 then 8 else align in
    let addr = if next_free % align' == 0 then next_free else round_up next_free align' in
    (addr, (addr + size) % 2 ^ 64)
