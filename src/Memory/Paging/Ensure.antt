-- ===== src/Memory/Paging/Ensure.antt =====
-- Making sure that an entry leads to a table: the tree grows by at most one empty table.
use native.Mathlib.Decide.{ℕ_discrete}
use unos_kernel.Prelude.{
  ℕ, ◌+◌, ◌-◌, ◌*◌, ◌/◌, ◌%◌, ◌^◌, ◌≤◌, ◌<◌, ◌≡◌, ◌≢◌, refl, ◌∙◌, ap, sym, true, false, arith, ◌==◌,
  ◌⊎◌, if◌then◌else◌, Bool-cases, inl, inr, ltb, ltb→lt,
}
use unos_kernel.Memory.Paging.{
  Store, write, page_bytes, present, frame, slot, clear_words, alloc_page, ensure, kernel_entry,
}
use unos_kernel.Memory.Paging.Tree.{
  IsTree, leads, zero_absent, kernel_entry_fields, clear_words-in, clear_words-out,
}

-- `m'`, with levels and prefixes for its tables, is `m` with a table behind entry `i` of `t`.
pub record Ensured (m m' : Store) (root t i : ℕ) (level prefix level' prefix' : ℕ → ℕ)
    : Type 0 where
  pub tree : IsTree m' root level' prefix'
  pub lead : leads (level t) (m'.word (slot t i)) ≡ true
  pub fresh : present (m.word (slot t i)) ≡ false → level (frame (m'.word (slot t i))) ≡ 0
  pub child_level : level' (frame (m'.word (slot t i))) + 1 ≡ level t
  pub child_prefix : prefix' (frame (m'.word (slot t i))) ≡ prefix t * 512 + i
  pub same_level : (s : ℕ) → level s ≢ 0 → level' s ≡ level s
  pub same_prefix : (s : ℕ) → level s ≢ 0 → prefix' s ≡ prefix s
  -- Entries of older tables stay, but for an absent one that is filled.
  pub same_word :
      (s j : ℕ)
      → s % page_bytes ≡ 0
      → level s ≢ 0
      → j < 512
      → (m'.word (slot s j) ≡ m.word (slot s j))
        ⊎ ((slot s j ≡ slot t i) × (present (m.word (slot t i)) ≡ false))
  pub new_word : (s j : ℕ) → level s ≡ 0 → level' s ≢ 0 → j < 512 → m'.word (slot s j) ≡ 0
  pub growth : m'.next_free ≤ m.next_free + page_bytes

module _ (m : Store) (root t i : ℕ) (level prefix : ℕ → ℕ) (v : IsTree m root level prefix)
    (t_aligned : t % page_bytes ≡ 0) (t_level : 2 ≤ level t) (i_in : i < 512)
    (room : m.next_free + page_bytes < 2 ^ 52) where
  unfoldable grown : Store
  grown = record {
    word = write (clear_words 512 m.next_free m.word) (slot t i) (kernel_entry m.next_free);
    next_free = m.next_free + page_bytes;
  }

  -- Tables lie below the free memory.
  below : (s j : ℕ) → s % page_bytes ≡ 0 → level s ≢ 0 → j < 512 → slot s j + 8 ≤ m.next_free
  below s j aligned table h = elim (Bool-cases (ltb s m.next_free)) [
    | inl lt ↦ omega (arith, ltb→lt _ _ lt, v.free_aligned)
    | inr ge ↦ absurd (table (v.free s (ground arith)))
  ]

  same_slot : (s j : ℕ) → s % page_bytes ≡ 0 → j < 512 → slot s j ≡ slot t i → (s ≡ t) × (j ≡ i)
  same_slot s j aligned h e = omega arith

  grown_free : grown.next_free ≡ m.next_free + page_bytes
  unfolding grown
  grown_free = refl

  grown_at : grown.word (slot t i) ≡ kernel_entry m.next_free
  unfolding grown write
  grown_at = ground arith

  grown_else :
      (s j : ℕ)
      → s % page_bytes ≡ 0
      → level s ≢ 0
      → j < 512
      → slot s j ≢ slot t i
      → grown.word (slot s j) ≡ m.word (slot s j)
  unfolding grown write
  grown_else s j aligned table h ne =
      ground (arith, clear_words-out 512 m.next_free (slot s j) m.word (inl lt))
    where
      lt : slot s j < m.next_free
      lt = omega (arith, below s j aligned table h)

  grown_new : (j : ℕ) → j < 512 → grown.word (slot m.next_free j) ≡ 0
  unfolding grown write
  grown_new j h =
      ground (arith, clear_words-in 512 m.next_free j m.word h, below t i t_aligned t_table i_in)
    where
      t_table : level t ≢ 0
      t_table = omega arith

  p_table : level m.next_free ≡ 0
  p_table = v.free m.next_free (omega arith)

  p_after : 0 < m.next_free
  p_after = omega (arith, below root 0 v.root_aligned (ground (arith, v.root_level)) (omega arith))

  abbrev level' : ℕ → ℕ
  level' s = if s == m.next_free then level t - 1 else level s

  abbrev prefix' : ℕ → ℕ
  prefix' s = if s == m.next_free then prefix t * 512 + i else prefix s

  old_level : (s : ℕ) → level s ≢ 0 → level' s ≡ level s
  old_level s h = ground (arith, p_table)

  old_prefix : (s : ℕ) → level s ≢ 0 → prefix' s ≡ prefix s
  old_prefix s h = ground (arith, p_table)

  -- The three kinds of entries of the new memory: of the new table, the new one, and the rest.
  entry_cases :
      (s j : ℕ)
      → s % page_bytes ≡ 0
      → level' s ≢ 0
      → j < 512
      → ((s ≡ m.next_free) × (grown.word (slot s j) ≡ 0))
        ⊎ ((level s ≢ 0)
            × (((s ≡ t) × (j ≡ i))
                ⊎ ((slot s j ≢ slot t i) × (grown.word (slot s j) ≡ m.word (slot s j)))))
  entry_cases s j aligned table h = elim (ℕ_discrete s m.next_free) [
    | yes e ↦ inl (e, ap (λ a. grown.word (slot a j)) e ∙ grown_new j h)
    | no ne ↦
        let old : level s ≢ 0 = ground arith in
        inr (
          old,
          elim (ℕ_discrete (slot s j) (slot t i)) [
            | yes e ↦ inl (same_slot s j aligned h e)
            | no ne' ↦ inr (ne', grown_else s j aligned old h ne')
          ],
        )
  ]

  zero_leads_not : (n e : ℕ) → e ≡ 0 → leads n e ≢ true
  zero_leads_not n e z lead = ground (arith, zero_absent)

  new_present : present (kernel_entry m.next_free) ≡ true
  new_present = (kernel_entry_fields m.next_free v.free_aligned (omega arith)).0

  new_frame : frame (kernel_entry m.next_free) ≡ m.next_free
  new_frame = (kernel_entry_fields m.next_free v.free_aligned (omega arith)).1

  new_small : kernel_entry m.next_free / 2 ^ 7 % 2 ≡ 0
  new_small = (kernel_entry_fields m.next_free v.free_aligned (omega arith)).2

  entry_at : (s j : ℕ) → s ≡ t → j ≡ i → grown.word (slot s j) ≡ kernel_entry m.next_free
  entry_at s j es ej =
      ap (λ a. grown.word (slot a j)) es ∙ ap (λ a. grown.word (slot t a)) ej ∙ grown_at

  -- The new entry leads to the new table.
  new_edge :
      (level' (frame (kernel_entry m.next_free)) + 1 ≡ level' t)
      × (prefix' (frame (kernel_entry m.next_free)) ≡ prefix' t * 512 + i)
  new_edge =
      let same : level' t ≡ level t = old_level t (omega arith) in
      let same' : prefix' t ≡ prefix t = old_prefix t (omega arith) in
      rw (new_frame, same, same') (ground arith, ground arith)

  -- An old edge stays: it does not lead to the new table, which was free.
  old_edge :
      (s e j : ℕ)
      → level s ≢ 0
      → (level (frame e) + 1 ≡ level s) × (prefix (frame e) ≡ prefix s * 512 + j)
      → 2 ≤ level s
      → (level' (frame e) + 1 ≡ level' s) × (prefix' (frame e) ≡ prefix' s * 512 + j)
  old_edge s e j table (l, q) two =
      let deep : level (frame e) ≢ 0 = omega arith in
      (
        ap (λ n. n + 1) (old_level (frame e) deep) ∙ l ∙ sym (old_level s table),
        old_prefix (frame e) deep ∙ q ∙ ap (λ n. n * 512 + j) (sym (old_prefix s table)),
      )

  grown_edge :
      (s j : ℕ)
      → s % page_bytes ≡ 0
      → 2 ≤ level' s
      → j < 512
      → leads (level' s) (grown.word (slot s j)) ≡ true
      → (level' (frame (grown.word (slot s j))) + 1 ≡ level' s)
        × (prefix' (frame (grown.word (slot s j))) ≡ prefix' s * 512 + j)
  grown_edge s j aligned two h lead = elim (entry_cases s j aligned (omega arith) h) [
    | inl (e, w) ↦ absurd (zero_leads_not _ _ w lead)
    | inr (table, inl (es, ej)) ↦ rw (es, ej, grown_at) new_edge
    | inr (table, inr (ne, same)) ↦
        let two' : 2 ≤ level s = omega (arith, old_level s table) in
        rw same (
          old_edge s (m.word (slot s j)) j table
            (v.edge s j aligned two' h (
              ap (λ n. leads n (m.word (slot s j))) (sym (old_level s table))
              ∙ ap (leads (level' s)) (sym same)
              ∙ lead))
            two')
  ]

  grown_absent :
      (s j : ℕ)
      → s % page_bytes ≡ 0
      → 2 ≤ level' s
      → j < 512
      → present (grown.word (slot s j)) ≡ false
      → grown.word (slot s j) ≡ 0
  grown_absent s j aligned two h gone = elim (entry_cases s j aligned (omega arith) h) [
    | inl (e, w) ↦ w
    | inr (table, inl (es, ej)) ↦ absurd (ground (arith, new_present, entry_at s j es ej))
    | inr (table, inr (ne, same)) ↦
        same
        ∙ v.absent s j aligned (omega (arith, old_level s table)) h (ap present (sym same) ∙ gone)
  ]

  grown-IsTree : IsTree grown root level' prefix'
  grown-IsTree = record {
    root_aligned = v.root_aligned;
    root_level = old_level root root_table ∙ v.root_level;
    root_prefix = old_prefix root root_table ∙ v.root_prefix;
    null = ground (arith, p_after, v.null);
    free_aligned = omega (arith, v.free_aligned, grown_free);
    free = λ s h. ground (arith, v.free s (omega (arith, grown_free)), grown_free);
    edge = grown_edge;
    absent = grown_absent;
  }
    where
      root_table : level root ≢ 0
      root_table = ground (arith, v.root_level)

  grown-Ensured :
      present (m.word (slot t i)) ≡ false → Ensured m grown root t i level prefix level' prefix'
  grown-Ensured gone = record {
    tree = grown-IsTree;
    lead = ground (arith, grown_at, new_present, new_small);
    fresh = λ _. ap (λ e. level (frame e)) grown_at ∙ ap level new_frame ∙ p_table;
    child_level = rw grown_at (new_edge.0 ∙ old_level t t_table);
    child_prefix = rw grown_at (new_edge.1 ∙ ap (λ n. n * 512 + i) (old_prefix t t_table));
    same_level = old_level;
    same_prefix = old_prefix;
    same_word = λ s j aligned table h. elim (ℕ_discrete (slot s j) (slot t i)) [
      | yes e ↦ inr (e, gone)
      | no ne ↦ inl (grown_else s j aligned table h ne)
    ];
    new_word =
        λ s j none some h. ap (λ a. grown.word (slot a j)) (new_table s none some) ∙ grown_new j h;
    growth = omega (arith, grown_free);
  }
    where
      t_table : level t ≢ 0
      t_table = omega arith

      new_table : (s : ℕ) → level s ≡ 0 → level' s ≢ 0 → s ≡ m.next_free
      new_table s none some = ground arith

  kept-Ensured :
      present (m.word (slot t i)) ≡ true
      → leads (level t) (m.word (slot t i)) ≡ true
      → Ensured m m root t i level prefix level prefix
  kept-Ensured there lead = record {
    tree = v;
    lead = lead;
    fresh = λ gone. absurd (ground (arith, there));
    child_level = (v.edge t i t_aligned t_level i_in lead).0;
    child_prefix = (v.edge t i t_aligned t_level i_in lead).1;
    same_level = λ s table. refl;
    same_prefix = λ s table. refl;
    same_word = λ s j aligned table h. inl refl;
    new_word = λ s j none some h. absurd (some none);
    growth = omega arith;
  }

  ensure-grown : present (m.word (slot t i)) ≡ false → ensure kernel_entry m (slot t i) ≡ grown
  unfolding ensure alloc_page grown
  ensure-grown gone = rw (gone, wrap) refl
    where
      wrap : (m.next_free + page_bytes) % 2 ^ 64 ≡ m.next_free + page_bytes
      wrap = omega arith

  ensure_kept : present (m.word (slot t i)) ≡ true → ensure kernel_entry m (slot t i) ≡ m
  unfolding ensure
  ensure_kept there = rw there refl

  -- The two cases together.
  pub ensure-Ensured :
      leads (level t) (m.word (slot t i)) ≡ present (m.word (slot t i))
      → (next_level next_prefix : ℕ → ℕ) × Ensured m
          (ensure kernel_entry m (slot t i))
          root
          t
          i
          level
          prefix
          next_level
          next_prefix
  ensure-Ensured plain = elim (Bool-cases (present (m.word (slot t i)))) [
    | inl there ↦ (level, prefix, rw (ensure_kept there) (kept-Ensured there (plain ∙ there)))
    | inr gone ↦ (level', prefix', rw (ensure-grown gone) (grown-Ensured gone))
  ]
