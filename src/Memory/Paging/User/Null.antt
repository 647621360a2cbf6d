-- ===== src/Memory/Paging/User/Null.antt =====
-- Where the tables of the user mappings lie: their addresses are below the kernel's half, for
-- which virt_to_phys_simple returns 0.
use unos_kernel.Prelude.{
  ℕ, ◌+◌, ◌*◌, ◌%◌, ◌^◌, ◌≤◌, ◌<◌, ◌≡◌, ◌≢◌, refl, ◌∙◌, ap, sym, true, false, arith, Bool-cases,
  inl, inr, ◌⊎◌, ◌==◌,
}
use unos_kernel.Memory.Paging.{
  Store, write, page_bytes, present, frame, slot, clear_words, alloc_page, pml4_index, pt_index,
}
use unos_kernel.Memory.Paging.Tree.{clear_words-in, clear_words-out, zero_absent}
use unos_kernel.Memory.Paging.Walk.{index-lt, index}
use unos_kernel.Memory.Paging.Map.{indices}
use unos_kernel.Memory.Paging.User.{virt_to_phys_simple, user_entry, ensure_user, map_page_user}

-- The memory after a table was made at `p` for the entry at `addr`.
unfoldable made : Store → ℕ → Store
made m addr = record {
  word = write (clear_words 512 m.next_free (clear_words 512 m.next_free m.word)) addr 7;
  next_free = m.next_free + page_bytes;
}

ensure_user-made :
    (m : Store) (addr : ℕ)
    → present (m.word addr) ≡ false
    → m.next_free < 2 ^ 47
    → ensure_user m addr ≡ made m addr
unfolding ensure_user alloc_page made virt_to_phys_simple user_entry
ensure_user-made m addr gone low = rw (gone, wrap, null) refl
  where
    wrap : (m.next_free + page_bytes) % 2 ^ 64 ≡ m.next_free + page_bytes
    wrap = omega arith

    null : virt_to_phys_simple m.next_free ≡ 0
    null = ground arith

ensure_user-kept : (m : Store) (addr : ℕ) → present (m.word addr) ≡ true → ensure_user m addr ≡ m
unfolding ensure_user
ensure_user-kept m addr there = rw there refl

made_at : (m : Store) (addr : ℕ) → (made m addr).word addr ≡ 7
unfolding made write
made_at m addr = ground arith

made_else :
    (m : Store) (addr a : ℕ)
    → a ≢ addr
    → (a < m.next_free) ⊎ (m.next_free + 8 * 512 ≤ a)
    → (made m addr).word a ≡ m.word a
unfolding made write
made_else m addr a ne out = ground (
  arith,
  clear_words-out 512 m.next_free a (clear_words 512 m.next_free m.word) out
      ∙ clear_words-out 512 m.next_free a m.word out,
)

made_new :
    (m : Store) (addr j : ℕ)
    → addr < m.next_free
    → j < 512
    → (made m addr).word (slot m.next_free j) ≡ 0
unfolding made write
made_new m addr j low h =
    ground (arith, clear_words-in 512 m.next_free j (clear_words 512 m.next_free m.word) h)

-- The words of page 0 are 0, or 7: an entry for page 0.
record IsNull (m : Store) : Type 0 where
  low : (i : ℕ) → i < 512 → (m.word (slot 0 i) ≡ 0) ⊎ (m.word (slot 0 i) ≡ 7)
  above : page_bytes ≤ m.next_free

-- `m'` is `m` but for page 0 and the pages that were free.
record Keeps (m m' : Store) : Type 0 where
  word : (a : ℕ) → page_bytes ≤ a → a < m.next_free → m'.word a ≡ m.word a
  more : m.next_free ≤ m'.next_free
  growth : m'.next_free ≤ m.next_free + page_bytes

seven : (present 7 ≡ true) × (frame 7 ≡ 0)
unfolding present frame
seven = (refl, refl)

made_free : (m : Store) (addr : ℕ) → (made m addr).next_free ≡ m.next_free + page_bytes
unfolding made
made_free m addr = refl

-- A table made behind an entry of page 0.
made-IsNull : (m : Store) (i : ℕ) → i < 512 → IsNull m → IsNull (made m (slot 0 i))
made-IsNull m i h n = record {
  low = λ j lt. elim (Bool-cases (j == i)) [
    | inl e ↦
        inr (ap (λ k. (made m (slot 0 i)).word (slot 0 k)) (ground arith) ∙ made_at m (slot 0 i))
    | inr ne ↦
        let same =
          made_else m (slot 0 i) (slot 0 j) (ground arith) (inl (omega (arith, n.above))) in
        elim (n.low j lt) [ inl z ↦ inl (same ∙ z) | inr s ↦ inr (same ∙ s) ]
  ];
  above = omega (arith, n.above, made_free m (slot 0 i));
}

made-Keeps : (m : Store) (i : ℕ) → i < 512 → Keeps m (made m (slot 0 i))
made-Keeps m i h = record {
  word = λ a high free. made_else m (slot 0 i) a (omega arith) (inl free);
  more = omega (arith, made_free m (slot 0 i));
  growth = omega (arith, made_free m (slot 0 i));
}

-- After it, the entry leads to page 0 again.
ensure_user-IsNull :
    (m : Store) (i : ℕ)
    → i < 512
    → m.next_free < 2 ^ 47
    → IsNull m
    → IsNull (ensure_user m (slot 0 i))
      × Keeps m (ensure_user m (slot 0 i))
      × (frame ((ensure_user m (slot 0 i)).word (slot 0 i)) ≡ 0)
ensure_user-IsNull m i h small n = elim (n.low i h) [
  | inl z ↦
      rw (ensure_user-made m (slot 0 i) (ap present z ∙ zero_absent) small)
        (made-IsNull m i h n, made-Keeps m i h, ap frame (made_at m (slot 0 i)) ∙ seven.1)
  | inr s ↦ rw (ensure_user-kept m (slot 0 i) (ap present s ∙ seven.0)) (
    n,
    record { word = λ a _ _. refl; more = omega arith; growth = omega arith },
    ap frame s ∙ seven.1,
  )
]

write_at : (word : ℕ → ℕ) (addr x : ℕ) → write word addr x addr ≡ x
unfolding write
write_at word addr x = ground arith

write_else : (word : ℕ → ℕ) (addr x a : ℕ) → a ≢ addr → write word addr x a ≡ word a
unfolding write
write_else word addr x a ne = ground arith

-- One round of a user mapping, with the root and the free memory behind page 0, room for three
-- tables below 2 ^ 47, an absent entry for `v` in the root, and page 0 all zero: the entry in the
-- root then leads to page 0, the page allocated for the table stays all zero, and what was to be
-- written for the page of `v` stands in page 0.
pub map_page_user-null :
    (m : Store) (root v entry : ℕ)
    → page_bytes ≤ root
    → root + page_bytes ≤ m.next_free
    → m.next_free + 3 * page_bytes < 2 ^ 47
    → present (m.word (slot root (pml4_index v))) ≡ false
    → ((i : ℕ) → i < 512 → m.word (slot 0 i) ≡ 0)
    → (frame ((map_page_user m root v entry).word (slot root (pml4_index v))) ≡ 0)
      × ((j : ℕ) → j < 512 → (map_page_user m root v entry).word (slot m.next_free j) ≡ 0)
      × ((map_page_user m root v entry).word (slot 0 (pt_index v)) ≡ entry)
unfolding map_page_user
map_page_user-null m root v entry behind free room gone zeros =
    let (i4, i3, i2, i1) = indices v in
    let top = slot root (index 3 v) in
    let m1 = made m top in
    let e1 =
      ensure_user-made m top (ap (λ k. present (m.word (slot root k))) (sym i4) ∙ gone)
        (omega arith) in
    let f1 = ap frame (made_at m top) ∙ seven.1 in
    let (n2, k2, f2) =
      ensure_user-IsNull m1 (index 2 v) (index-lt 2 v) (omega (arith, made_free m top))
        first_null in
    let m2 = ensure_user m1 (slot 0 (index 2 v)) in
    let (n3, k3, f3) =
      ensure_user-IsNull m2 (index 1 v) (index-lt 1 v) (omega (arith, made_free m top, k2.growth))
        n2 in
    let m3 = ensure_user m2 (slot 0 (index 1 v)) in
    let kept : (a : ℕ)
        → page_bytes ≤ a
        → a < m.next_free + page_bytes
        → write m3.word (slot 0 (index 0 v)) entry a ≡ m1.word a =
      λ a high low.
        write_else m3.word (slot 0 (index 0 v)) entry a (omega (arith, index-lt 0 v))
        ∙ k3.word a high (omega (arith, made_free m top, k2.more))
        ∙ k2.word a high (omega (arith, made_free m top)) in
    rw (i4, i3, i2, i1, e1, f1, f2, f3)
      (
        ap frame (kept top (omega arith) (omega (arith, index-lt 3 v)) ∙ made_at m top) ∙ seven.1,
        λ j h.
            kept (slot m.next_free j) (omega arith) (omega arith)
            ∙ made_new m top j (omega (arith, index-lt 3 v)) h,
        write_at m3.word (slot 0 (index 0 v)) entry,
      )
  where
    first_null : IsNull (made m (slot root (index 3 v)))
    first_null = record {
      low = λ i h. inl (
          made_else m (slot root (index 3 v)) (slot 0 i) (omega arith) (inl (omega arith))
          ∙ zeros i h);
      above = omega (arith, made_free m (slot root (index 3 v)));
    }
