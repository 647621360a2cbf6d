-- ===== src/Memory/Paging/Write.antt =====
-- An entry written that maps memory.
use native.Mathlib.Decide.{ℕ_discrete}
use unos_kernel.Prelude.{
  ℕ, zero, suc, ◌%◌, ◌≤◌, ◌<◌, ◌≡◌, ◌≢◌, refl, ◌∙◌, ap, sym, true, arith, ◌==◌, ◌||◌, Bool-cases,
  inl, inr,
}
use unos_kernel.Memory.Paging.{Store, page_bytes, write, present, slot}
use unos_kernel.Memory.Paging.Tree.{IsTree, leads, is_large}
use unos_kernel.Memory.Paging.Walk.{Walk, walk, step, step_else, index, index-lt}
use unos_kernel.Memory.Paging.Reach.{Reach, Reach-IsPlaced, prefix_of, down}

unfoldable pub written : Store → ℕ → ℕ → Store
written m addr x = record m { word = write m.word addr x }

-- An entry that maps memory is written into the table `t` of level `n + 1`.
module _ (m : Store) (root n t j x : ℕ) (level prefix : ℕ → ℕ) (i : IsTree m root level prefix)
    (t_aligned : t % page_bytes ≡ 0) (t_level : level t ≡ suc n) (j_in : j < 512)
    (there : present x ≡ true) (large : (n == 0 || is_large (suc n) x) ≡ true) where
  abbrev done : Store
  done = written m (slot t j) x

  pub done_free : done.next_free ≡ m.next_free
  unfolding written
  done_free = refl

  pub done_at : done.word (slot t j) ≡ x
  unfolding written write
  done_at = ground arith

  done_else : (s k : ℕ) → slot s k ≢ slot t j → done.word (slot s k) ≡ m.word (slot s k)
  unfolding written write
  done_else s k ne = ground arith

  slot_eq : (s k : ℕ) → s % page_bytes ≡ 0 → k < 512 → slot s k ≡ slot t j → (s ≡ t) × (k ≡ j)
  slot_eq s k aligned h e = omega arith

  pub done_upper :
      (s k : ℕ)
      → s % page_bytes ≡ 0
      → suc (suc n) ≤ level s
      → k < 512
      → done.word (slot s k) ≡ m.word (slot s k)
  done_upper s k aligned high h = done_else s k (λ e. absurd (other (slot_eq s k aligned h e).0))
    where
      other : s ≢ t
      other e = omega (arith, ap level e)

  -- The entry leads to no table.
  x_stays : (s : ℕ) → s ≡ t → 2 ≤ level s → leads (level s) x ≢ true
  x_stays s e two lead = ground (arith, ap level e, there, large)

  pub done-IsTree : IsTree done root level prefix
  done-IsTree = record {
    root_aligned = i.root_aligned;
    root_level = i.root_level;
    root_prefix = i.root_prefix;
    null = i.null;
    free_aligned = ap (λ f. f % page_bytes) done_free ∙ i.free_aligned;
    free = λ s h. i.free s (omega (arith, done_free));
    edge = λ s k aligned two h. elim (ℕ_discrete (slot s k) (slot t j)) [
      | no ne ↦ rw (done_else s k ne) (i.edge s k aligned two h)
      | yes e ↦ λ lead. absurd (
          x_stays s (slot_eq s k aligned h e).0 two
            (ap (leads (level s)) (sym (ap done.word e ∙ done_at)) ∙ lead))
    ];
    absent = λ s k aligned two h. elim (ℕ_discrete (slot s k) (slot t j)) [
      | no ne ↦ rw (done_else s k ne) (i.absent s k aligned two h)
      | yes e ↦ λ gone. absurd (ground (arith, there, gone, ap present (ap done.word e ∙ done_at)))
    ];
  }

  -- Another range of addresses has another slot.
  apart :
      (l s a : ℕ)
      → Reach m.word a root l s
      → slot s (index l a) ≡ slot t j
      → (prefix_of (suc n) a ≡ prefix t → index n a ≢ j)
      → ⊥
  apart l s a r e other =
      let o = Reach-IsPlaced i r in
      let (es, ej) = slot_eq s (index l a) o.aligned (index-lt l a) e in
      let same : l ≡ n = omega (arith, o.at_level, ap level es) in
      other (ap (λ k. prefix_of (suc k) a) (sym same) ∙ sym o.at_prefix ∙ ap prefix es)
        (ap (λ k. index k a) (sym same) ∙ ej)

  pub walk-done :
      (l s a : ℕ)
      → Reach m.word a root l s
      → (prefix_of (suc n) a ≡ prefix t → index n a ≢ j)
      → walk done.word (suc l) s a ≡ walk m.word (suc l) s a
  unfolding walk
  walk-done zero s a r other =
      ap (λ e. step 0 e Walk.missing) (done_else s (index 0 a) (λ e. apart 0 s a r e other))
  walk-done (suc l) s a r other =
      elim (Bool-cases (leads (suc (suc l)) (m.word (slot s (index (suc l) a))))) [
        | inr stays ↦ rw same (step_else l _ _ _ stays)
        | inl lead ↦ rw same (
            ap (step (suc l) (m.word (slot s (index (suc l) a))))
              (walk-done l _ a (down r lead) other))
      ]
    where
      same : done.word (slot s (index (suc l) a)) ≡ m.word (slot s (index (suc l) a))
      same = done_else s (index (suc l) a) (λ e. apart (suc l) s a r e other)
