-- ===== src/Memory/Bump/Blocks.antt =====
-- The blocks that a sequence of kmalloc calls returns.
use unos_kernel.Prelude.{ℕ, ◌+◌, ◌%◌, ◌^◌, ◌≤◌, ◌≡◌, refl, List, [], ◌∷◌, arith}
use unos_kernel.Memory.Bump.{kmalloc, kmalloc_all}
use unos_kernel.Memory.Bump.Align.{align_up_near}

kmalloc_lem :
    (heap size : ℕ)
    → heap + size + 16 ≤ 2 ^ 64
    → let (ptr, heap') = kmalloc heap size in
      (ptr % 8 ≡ 0) × (heap ≤ ptr) × (ptr + size ≤ heap') × (heap' ≤ heap + size + 14)
unfolding kmalloc
kmalloc_lem heap size h =
    let (ptr_aligned, ptr_above, ptr_near) = align_up_near 3 61 heap refl (omega arith) in
    let (_, size_above, size_near) = align_up_near 3 61 size refl (omega arith) in omega arith

-- Each block begins on a multiple of 8, at or above `lo` and the end of the block before it.
abbrev pub Ordered : ℕ → List (ℕ × ℕ) → Type 0
Ordered lo [] = Unit {0}
Ordered lo ((ptr, size) ∷ blocks) = (lo ≤ ptr) × (ptr % 8 ≡ 0) × Ordered (ptr + size) blocks

-- What a sequence of requests may use up, rounding included.
abbrev pub demand : List ℕ → ℕ
demand [] = 0
demand (size ∷ sizes) = size + 14 + demand sizes

Ordered-mono : (lo hi : ℕ) (blocks : List (ℕ × ℕ)) → lo ≤ hi → Ordered hi blocks → Ordered lo blocks
Ordered-mono lo hi [] h o = tt
Ordered-mono lo hi ((ptr, size) ∷ blocks) h o = (omega arith, o.1, o.2)

-- As long as the requests do not pass the end of the address space, the blocks of successive
-- kmalloc calls are aligned to 8, lie above the heap pointer, and do not overlap.
pub kmalloc_all-Ordered :
    (sizes : List ℕ) (heap : ℕ)
    → heap + demand sizes + 2 ≤ 2 ^ 64
    → Ordered heap (kmalloc_all heap sizes)
unfolding kmalloc_all
kmalloc_all-Ordered [] heap h = tt
kmalloc_all-Ordered (size ∷ sizes) heap h =
    let (aligned, above, past, near) = kmalloc_lem heap size (omega arith) in
    (
      above,
      aligned,
      Ordered-mono _ _ (kmalloc_all (kmalloc heap size).1 sizes) past
          (kmalloc_all-Ordered sizes (kmalloc heap size).1 (omega arith)),
    )
