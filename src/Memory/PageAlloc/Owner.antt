-- ===== src/Memory/PageAlloc/Owner.antt =====
-- Clients that free only pages which they hold never share one.
use unos_kernel.Prelude.{
  ℕ, suc, ◌-◌, ◌≤◌, ◌<◌, ◌≡◌, ◌≢◌, inl, inr, none, some, true, ◌∙◌, List, [], ◌∷◌, arith, ◌==◌,
  if◌then◌else◌, get_or, set, length-set, get_or-set_self, get_or-set_ne,
}
use unos_kernel.Memory.PageAlloc.{
  Pages, max_tracked_pages, page_addr, is_free, palloc_page, claim_page, free_phys_page,
}
use unos_kernel.Memory.PageAlloc.Claim.{IsValid, palloc_page-claim_page}
use unos_kernel.Memory.PageAlloc.Free.{free_phys_page-page_addr}

abbrev pub count : ℕ → List ℕ → ℕ
count a [] = 0
count a (x ∷ xs) = let others = count a xs in if x == a then suc others else others

-- Takes the first occurrence out.
abbrev pub erase : ℕ → List ℕ → List ℕ
erase a [] = []
erase a (x ∷ xs) = if x == a then xs else x ∷ erase a xs

-- The allocator, and the pages that clients hold.
pub record World : Type 0 where
  pub pages : Pages
  pub held : List ℕ

-- What a client may do: ask for a page, or give back one that it holds.
pub data Step : World → World → Type 0 where
  granted :
      (w : World) (addr : ℕ) (s : Pages)
      → palloc_page w.pages ≡ (some addr, s)
      → Step w (record { pages = s; held = addr ∷ w.held })
  refused :
      (w : World) (s : Pages) → palloc_page w.pages ≡ (none, s) → Step w (record w { pages = s })
  given_back :
      (w : World) (i : ℕ)
      → i < max_tracked_pages
      → 0 < count (page_addr i) w.held
      → Step w (record {
        pages = free_phys_page w.pages (page_addr i);
        held = erase (page_addr i) w.held;
      })

pub data Reach (w : World) : World → Type 0 where
  here : Reach w w
  next : {u v : World} → Reach w u → Step u v → Reach w v

-- A page is held at most as often as its bitmap entry says, which is at most once.
pub record IsOwned (w : World) : Type 0 where
  pub valid : IsValid w.pages
  pub bit : (i : ℕ) → i < max_tracked_pages → get_or w.pages.bitmap i 1 ≤ 1
  pub covered :
      (i : ℕ) → i < max_tracked_pages → count (page_addr i) w.held ≤ get_or w.pages.bitmap i 1

count-erase :
    (a b : ℕ) (xs : List ℕ) → count b (erase a xs) ≡ count b xs - (if a == b then 1 else 0)
count-erase a b [] = ground arith
count-erase a b (x ∷ xs) = ground (arith, count-erase a b xs)

-- The three kinds of step, with the state after the call written out.
granted-IsOwned :
    (w : World) (i : ℕ)
    → i < max_tracked_pages
    → is_free w.pages.bitmap i ≡ true
    → IsOwned w
    → IsOwned (record { pages = (claim_page w.pages i).1; held = page_addr i ∷ w.held })
granted-IsOwned w i lt free o = record {
  valid = record { size = length-set w.pages.bitmap i 1 ∙ o.valid.size; last_in = omega arith };
  bit = λ j h. ground (arith, same, other j, o.bit j h);
  covered = λ j h. ground (arith, same, other j, o.covered j h);
}
  where
    same : get_or (set w.pages.bitmap i 1) i 1 ≡ 1
    same = get_or-set_self w.pages.bitmap i 1 1 (omega (arith, o.valid.size))

    other : (j : ℕ) → i ≢ j → get_or (set w.pages.bitmap i 1) j 1 ≡ get_or w.pages.bitmap j 1
    other j ne = get_or-set_ne w.pages.bitmap i j 1 1 ne

given_back-IsOwned :
    (w : World) (i : ℕ)
    → i < max_tracked_pages
    → IsOwned w
    → IsOwned (record {
      pages = record (w.pages) { bitmap = set w.pages.bitmap i 0 };
      held = erase (page_addr i) w.held;
    })
given_back-IsOwned w i lt o = record {
  valid = record { size = length-set w.pages.bitmap i 0 ∙ o.valid.size; last_in = o.valid.last_in };
  bit = λ j h. ground (arith, same, other j, o.bit j h);
  covered = λ j h. ground (
    arith,
    same,
    other j,
    o.covered j h,
    o.bit j h,
    count-erase (page_addr i) (page_addr j) w.held,
  );
}
  where
    same : get_or (set w.pages.bitmap i 0) i 1 ≡ 0
    same = get_or-set_self w.pages.bitmap i 0 1 (omega (arith, o.valid.size))

    other : (j : ℕ) → i ≢ j → get_or (set w.pages.bitmap i 0) j 1 ≡ get_or w.pages.bitmap j 1
    other j ne = get_or-set_ne w.pages.bitmap i j 0 1 ne

Step-IsOwned : {w u : World} → Step w u → IsOwned w → IsOwned u
Step-IsOwned (granted w addr s e) o = elim (palloc_page-claim_page o.valid) [
  | inl (i, lt, free, claimed) ↦
      let at : addr ≡ page_addr i = ground arith in
      let new : s ≡ (claim_page w.pages i).1 = ground arith in
      rw (at, new) (granted-IsOwned w i lt free o)
  | inr (none_left, full) ↦ absurd (ground arith)
]
Step-IsOwned (refused w s e) o = elim (palloc_page-claim_page o.valid) [
  | inl (i, lt, free, claimed) ↦ absurd (ground arith)
  | inr (none_left, full) ↦ let same : s ≡ w.pages = ground arith in rw same o
]
Step-IsOwned (given_back w i lt h) o =
    rw (free_phys_page-page_addr w.pages i lt) (given_back-IsOwned w i lt o)

Reach-IsOwned : {w u : World} → IsOwned w → Reach w u → IsOwned u
Reach-IsOwned o here = o
Reach-IsOwned o (next r st) = Step-IsOwned st (Reach-IsOwned o r)

-- However clients take and give back pages, no page is held twice at a time.
pub Reach-count :
    {w u : World}
    → IsOwned w
    → Reach w u
    → (i : ℕ) → i < max_tracked_pages
    → count (page_addr i) u.held ≤ 1
Reach-count o r i h =
    let after = Reach-IsOwned o r in omega (arith, after.bit i h, after.covered i h)
