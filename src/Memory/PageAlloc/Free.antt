-- ===== src/Memory/PageAlloc/Free.antt =====
-- free_phys_page and pmm_free: what they give back, and where they differ.
use unos_kernel.Prelude.{
  inl, inr, sym, ℕ, ◌+◌, ◌*◌, ◌^◌, ◌≤◌, ◌<◌, ◌≡◌, ◌∙◌, ap, none, some, arith, get_or, set, set-set,
  set-get_or,
}
use unos_kernel.Memory.PageAlloc.{
  Pages, max_tracked_pages, page_addr, palloc_page, free_phys_page, pmm_free,
}
use unos_kernel.Memory.PageAlloc.Claim.{IsValid, palloc_page-claim_page}

pub free_phys_page-page_addr :
    (s : Pages) (i : ℕ)
    → i < max_tracked_pages
    → free_phys_page s (page_addr i) ≡ record s { bitmap = set s.bitmap i 0 }
unfolding free_phys_page
free_phys_page-page_addr s i h = ground arith

-- Whatever page palloc_page hands out, free_phys_page restores the bitmap.
pub free_phys_page-palloc_page :
    {s t : Pages} {addr : ℕ}
    → IsValid s
    → palloc_page s ≡ (some addr, t)
    → (free_phys_page t addr).bitmap ≡ s.bitmap
free_phys_page-palloc_page {s} {t} {addr} v h = elim (palloc_page-claim_page v) [
  | inl (i, lt, free, e) ↦
      let at : addr ≡ page_addr i = ground arith in
      let new : t ≡ record { bitmap = set s.bitmap i 1; last = i + 1 } = ground arith in
      let old : get_or s.bitmap i 1 ≡ 0 = ground arith in
      rw (at, new, free_phys_page-page_addr, set-set)
        (ap (λ n. set s.bitmap i n) (sym old) ∙ set-get_or s.bitmap i 1)
  | inr (e, full) ↦ absurd (ground arith)
]

-- An address whose page number exceeds 32 bits frees another page.
pub free_phys_page-alias :
    (s : Pages) (i k : ℕ)
    → i < max_tracked_pages
    → free_phys_page s (page_addr i + k * 2 ^ 44) ≡ record s { bitmap = set s.bitmap i 0 }
unfolding free_phys_page
free_phys_page-alias s i k h = ground arith

-- pmm_free agrees with free_phys_page up to the last tracked page, and writes out of bounds above.
pub pmm_free_lem :
    (s : Pages) (addr : ℕ)
    → (addr < page_addr max_tracked_pages → pmm_free s addr ≡ some (free_phys_page s addr))
      × (page_addr max_tracked_pages ≤ addr → pmm_free s addr ≡ none)
unfolding free_phys_page pmm_free
pmm_free_lem s addr = (λ h. ground arith, λ h. ground arith)
