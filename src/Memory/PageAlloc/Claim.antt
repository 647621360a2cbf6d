-- ===== src/Memory/PageAlloc/Claim.antt =====
-- palloc_page and dma_alloc_page: which page they hand out, and when they fail.
use unos_kernel.Prelude.{
  ℕ, zero, suc, ◌+◌, ◌-◌, ◌*◌, ◌≤◌, ◌<◌, ◌≡◌, ◌≢◌, refl, ◌⊎◌, inl, inr, none, some, List, true,
  false, arith, Bool-cases, Option-cases, ltb, ◌==◌, tests, length, set, length-set, get_or,
  get_or-set_self, get_or-set_ne,
}
use unos_kernel.Memory.PageAlloc.{
  Pages, max_tracked_pages, dma_max_pages, dma_base_addr, base_phys_addr, page_size, is_free, scan,
  claim_page, palloc_page, dma_alloc_page,
}

-- The bitmap covers the tracked pages, and the search position does not pass its end.
pub record IsValid (s : Pages) : Type 0 where
  pub size : length s.bitmap ≡ max_tracked_pages
  pub last_in : s.last ≤ max_tracked_pages

pub scan-some :
    (left i : ℕ) (bitmap : List ℕ) {k : ℕ}
    → scan left i bitmap ≡ some k
    → (i ≤ k) × (k < i + left) × (is_free bitmap k ≡ true)
unfolding scan
scan-some zero i bitmap h = absurd (ground arith)
scan-some (suc left) i bitmap {k} h = elim (Bool-cases (is_free bitmap i)) [
  | inl free ↦ ground arith
  | inr taken ↦
      let (lo, hi, free) = scan-some left (i + 1) bitmap {k = k} (ground arith) in
      (omega arith, omega arith, free)
]

pub scan-none :
    (left i : ℕ) (bitmap : List ℕ)
    → scan left i bitmap ≡ none
    → (j : ℕ) → i ≤ j
    → j < i + left
    → is_free bitmap j ≡ false
unfolding scan
scan-none zero i bitmap h j lo hi = absurd (omega arith)
scan-none (suc left) i bitmap h j lo hi = elim (Bool-cases (is_free bitmap i)) [
  | inl free ↦ absurd (ground arith)
  | inr taken ↦ elim (Bool-cases (i == j)) [
    | inl same ↦ ground arith
    | inr other ↦ scan-none left (i + 1) bitmap (ground arith) j (ground arith) (omega arith)
  ]
]

pub scan-lowest :
    (left i : ℕ) (bitmap : List ℕ) {k : ℕ}
    → scan left i bitmap ≡ some k
    → (j : ℕ) → i ≤ j
    → j < k
    → is_free bitmap j ≡ false
unfolding scan
scan-lowest zero i bitmap h j lo hi = absurd (ground arith)
scan-lowest (suc left) i bitmap {k} h j lo hi = elim (Bool-cases (is_free bitmap i)) [
  | inl free ↦ absurd (ground arith)
  | inr taken ↦ elim (Bool-cases (i == j)) [
    | inl same ↦ ground arith
    | inr other ↦ scan-lowest left (i + 1) bitmap (ground arith) j (ground arith) hi
  ]
]

pub palloc_page-claim_page :
    {s : Pages}
    → IsValid s
    → ((i : ℕ) × (i < max_tracked_pages)
        × (is_free s.bitmap i ≡ true)
        × (palloc_page s ≡ claim_page s i))
      ⊎ ((palloc_page s ≡ (none, s))
          × ((j : ℕ) → j < max_tracked_pages → is_free s.bitmap j ≡ false))
unfolding palloc_page
palloc_page-claim_page {s} v =
    elim (Option-cases (scan (max_tracked_pages - s.last) s.last s.bitmap)) [
      | inr (i, found) ↦
          let (lo, hi, free) = scan-some (max_tracked_pages - s.last) s.last s.bitmap found in
          inl (i, omega arith, free, ground arith)
      | inl none_above ↦ elim (Option-cases (scan s.last 0 s.bitmap)) [
        | inr (i, found) ↦
            let (lo, hi, free) = scan-some s.last 0 s.bitmap found in
            inl (i, omega arith, free, ground arith)
        | inl none_below ↦ inr (
          ground arith,
          λ j h. elim (Bool-cases (ltb j s.last)) [
            | inl below ↦ scan-none s.last 0 s.bitmap none_below j (omega arith) (omega tests)
            | inr above ↦
                scan-none (max_tracked_pages - s.last) s.last s.bitmap none_above j (ground arith)
                  (omega arith)
          ],
        )
      ]
    ]

-- What a state `t` is in which the page of the entry `i` has been handed out: only that entry is
-- marked anew, and the next search begins behind it.
pub record IsTaken (s t : Pages) (i : ℕ) : Type 0 where
  pub tracked : i < max_tracked_pages
  pub was_free : get_or s.bitmap i 1 ≡ 0
  pub marked : get_or t.bitmap i 0 ≡ 1
  pub others : (j : ℕ) → i ≢ j → get_or t.bitmap j 0 ≡ get_or s.bitmap j 0
  pub size : length t.bitmap ≡ length s.bitmap
  pub last : t.last ≡ i + 1

claim_page-IsTaken :
    (s : Pages) (i : ℕ)
    → IsValid s
    → i < max_tracked_pages
    → is_free s.bitmap i ≡ true
    → IsTaken s ((claim_page s i).1) i
claim_page-IsTaken s i v h free =
    let size = v.size in
    record {
      tracked = h;
      was_free = ground arith;
      marked = get_or-set_self s.bitmap i 1 0 (omega arith);
      others = λ j ne. get_or-set_ne s.bitmap i j 1 0 ne;
      size = length-set s.bitmap i 1;
      last = refl;
    }

-- On a valid state palloc_page either returns the address of a tracked page that was free, marks
-- that page and no other, and sets the search position behind it; or it returns NULL with the
-- state unchanged, and then every tracked page is taken.
pub palloc_page_lem :
    {s : Pages}
    → IsValid s
    → ((i : ℕ) × (t : Pages) × (palloc_page s ≡ (some (base_phys_addr + i * page_size), t))
        × IsTaken s t i)
      ⊎ ((palloc_page s ≡ (none, s))
          × ((j : ℕ) → j < max_tracked_pages → is_free s.bitmap j ≡ false))
palloc_page_lem {s} v = elim (palloc_page-claim_page v) [
  | inl (i, h, free, e) ↦ inl (i, (claim_page s i).1, e, claim_page-IsTaken s i v h free)
  | inr full ↦ inr full
]

-- dma_alloc_page claims the lowest free page of the pool, and fails only when none is free.
pub dma_alloc_page_lem :
    (bitmap : List ℕ)
    → ((i : ℕ) × (i < dma_max_pages)
        × (is_free bitmap i ≡ true)
        × ((j : ℕ) → j < i → is_free bitmap j ≡ false)
        × (dma_alloc_page bitmap ≡ (some (dma_base_addr + i * page_size), set bitmap i 1)))
      ⊎ ((dma_alloc_page bitmap ≡ (none, bitmap))
          × ((j : ℕ) → j < dma_max_pages → is_free bitmap j ≡ false))
unfolding dma_alloc_page
dma_alloc_page_lem bitmap = elim (Option-cases (scan dma_max_pages 0 bitmap)) [
  | inr (i, found) ↦
      let (lo, hi, free) = scan-some dma_max_pages 0 bitmap found in
      inl (
        i,
        omega arith,
        free,
        (λ j h. scan-lowest dma_max_pages 0 bitmap found j (omega arith) h),
        ground arith,
      )
  | inl nothing ↦
      inr (
        ground arith,
        λ j h. scan-none dma_max_pages 0 bitmap nothing j (omega arith) (omega arith),
      )
]
