-- ===== src/Memory/PageAlloc/Mark.antt =====
-- The loops of init_phys_allocator end, and mark exactly the pages of their ranges.
use unos_kernel.Prelude.{
  ℕ, zero, suc, ◌+◌, ◌-◌, ◌*◌, ◌/◌, ◌%◌, ◌^◌, ◌≤◌, ◌<◌, ◌≡◌, ◌≢◌, refl, Bool, ◌&&◌, ◌||◌, some,
  List, arith, ltb, leb, ◌==◌, if◌then◌else◌, lt→ltb, ◌∙◌, length, length-set, get_or, set,
  get_or-set_self, get_or-set_ne,
}
use native.Mathlib.Decide.{dec_lt}
use unos_kernel.Memory.PageAlloc.{
  max_tracked_pages, base_phys_addr, page_size, page_addr, mark_range, init_phys_allocator,
}

-- Page `j` begins in the range from page `a` up to the address `end`.
abbrev pub in_range : ℕ → ℕ → ℕ → Bool
in_range a end j = leb a j && ltb (page_addr j) end

-- `marked` is `bitmap` with the pages of a test set to 1.
pub record IsMarked (bitmap : List ℕ) (test : ℕ → Bool) (marked : List ℕ) : Type 0 where
  pub size : length marked ≡ length bitmap
  pub entry :
      (j : ℕ)
      → j < max_tracked_pages
      → get_or marked j 1 ≡ (if test j then 1 else get_or bitmap j 1)

-- What one round does to the bitmap.
abbrev mark_one : ℕ → List ℕ → List ℕ
mark_one a bitmap = if ltb a max_tracked_pages then set bitmap a 1 else bitmap

length-mark_one : (a : ℕ) (bitmap : List ℕ) → length (mark_one a bitmap) ≡ length bitmap
length-mark_one a bitmap = ground (arith, length-set bitmap a 1)

get_or-mark_one :
    (a j : ℕ) (bitmap : List ℕ)
    → length bitmap ≡ max_tracked_pages
    → j < max_tracked_pages
    → get_or (mark_one a bitmap) j 1 ≡ (if a == j then 1 else get_or bitmap j 1)
get_or-mark_one a j bitmap size h = ground (
  arith,
  λ (p : a < length bitmap). get_or-set_self bitmap a 1 1 p,
  λ (p : a ≢ j). get_or-set_ne bitmap a j 1 1 p,
)

mark_range-step :
    (fuel a end : ℕ) (bitmap : List ℕ)
    → page_addr a < end
    → end + page_size ≤ 2 ^ 64
    → mark_range (suc fuel) (page_addr a) end bitmap
      ≡ mark_range fuel (page_addr (a + 1)) end (mark_one a bitmap)
unfolding mark_range
mark_range-step fuel a end bitmap more fits = rw (index, following, lt→ltb _ _ more)
  where
    index : (page_addr a + 2 ^ 64 - base_phys_addr) % 2 ^ 64 / page_size ≡ a
    index = omega arith

    following : (page_addr a + page_size) % 2 ^ 64 ≡ page_addr (a + 1)
    following = omega arith

mark_range-stop :
    (fuel addr end : ℕ) (bitmap : List ℕ)
    → end ≤ addr
    → mark_range (suc fuel) addr end bitmap ≡ some bitmap
unfolding mark_range
mark_range-stop fuel addr end bitmap h = ground arith

-- Started at page `a`, with a round for each page of the range and one to spare, the loop ends,
-- and has marked exactly the pages of the range.
pub mark_range-IsMarked :
    (fuel a end : ℕ) (bitmap : List ℕ)
    → length bitmap ≡ max_tracked_pages
    → end + page_size ≤ 2 ^ 64
    → end ≤ page_addr a + fuel * page_size
    → (marked : List ℕ) × (mark_range (suc fuel) (page_addr a) end bitmap ≡ some marked)
      × IsMarked bitmap (in_range a end) marked
mark_range-IsMarked zero a end bitmap size fits enough = (
  bitmap,
  mark_range-stop 0 (page_addr a) end bitmap (omega arith),
  record { size = refl; entry = λ j h. ground arith },
)
mark_range-IsMarked (suc fuel) a end bitmap size fits enough = elim (dec_lt (page_addr a) end) [
  | no stop ↦ (
    bitmap,
    mark_range-stop (suc fuel) (page_addr a) end bitmap (omega arith),
    record { size = refl; entry = λ j h. ground arith },
  )
  | yes more ↦
      let (marked, run, m) =
        mark_range-IsMarked fuel (a + 1) end (mark_one a bitmap) (length-mark_one a bitmap ∙ size)
          fits (omega arith) in
      (
        marked,
        mark_range-step (suc fuel) a end bitmap more fits ∙ run,
        record {
          size = m.size ∙ length-mark_one a bitmap;
          entry = λ j h. ground (arith, m.entry j h, get_or-mark_one a j bitmap size h);
        },
      )
]

-- The pages that the boot code reserves: the kernel, the two controller areas, the kernel heap.
abbrev pub is_reserved : ℕ → ℕ → ℕ → ℕ → Bool
is_reserved kernel kernel_end abar j =
    in_range kernel kernel_end j
    || in_range 1792 0xa0_0000 j
    || in_range abar (page_addr abar + 0x20_0000) j
    || in_range 768 0x100_0000 j

-- From a kernel and an AHCI window that begin on page boundaries above 1 MiB, and with fuel for
-- the longest range, init_phys_allocator ends and sets exactly the entries of the reserved pages.
pub init_phys_allocator-IsMarked :
    (fuel kernel kernel_end abar : ℕ) (bitmap : List ℕ)
    → length bitmap ≡ max_tracked_pages
    → kernel_end + page_size ≤ 2 ^ 64
    → page_addr abar + 0x20_1000 ≤ 2 ^ 64
    → kernel_end ≤ page_addr kernel + fuel * page_size
    → 3072 ≤ fuel
    → (marked : List ℕ) × (init_phys_allocator
          (suc fuel)
          (page_addr kernel)
          kernel_end
          (page_addr abar)
          bitmap
        ≡ some marked)
      × IsMarked bitmap (is_reserved kernel kernel_end abar) marked
unfolding init_phys_allocator
init_phys_allocator-IsMarked fuel kernel kernel_end abar bitmap size fits abar_fits enough long =
    let (b1, run1, m1) = mark_range-IsMarked fuel kernel kernel_end bitmap size fits enough in
    let (b2, run2, m2) =
      mark_range-IsMarked fuel 1792 0xa0_0000 b1 (m1.size ∙ size) (omega arith) (omega arith) in
    let (b3, run3, m3) =
      mark_range-IsMarked fuel abar (page_addr abar + 0x20_0000) b2 (m2.size ∙ m1.size ∙ size)
        (omega arith) (omega arith) in
    let (b4, run4, m4) =
      mark_range-IsMarked fuel 768 0x100_0000 b3 (m3.size ∙ m2.size ∙ m1.size ∙ size) (omega arith)
        (omega arith) in
    let no_wrap : (page_addr abar + 0x20_0000) % 2 ^ 64 ≡ page_addr abar + 0x20_0000 =
      omega arith in
    (
      b4,
      rw (no_wrap, run1, run2, run3) run4,
      record {
        size = m4.size ∙ m3.size ∙ m2.size ∙ m1.size;
        entry = λ j h. ground (arith, m1.entry j h, m2.entry j h, m3.entry j h, m4.entry j h);
      },
    )
