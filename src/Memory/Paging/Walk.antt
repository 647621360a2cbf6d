-- ===== src/Memory/Paging/Walk.antt =====
-- What the processor makes of the page tables: the walk of an address from a table, which the
-- code of paging.c is compared with.
use unos_kernel.Prelude.{
  ℕ, zero, suc, ◌+◌, ◌*◌, ◌/◌, ◌%◌, ◌^◌, ◌≤◌, ◌<◌, ◌≡◌, ◌≢◌, refl, ◌∙◌, ap, sym, true, false, arith,
  not, ◌==◌, ◌||◌, if◌then◌else◌, Bool-cases, inl, inr,
}
use unos_kernel.Memory.Paging.{Store, page_bytes, present, frame, slot}
use unos_kernel.Memory.Paging.Tree.{IsTree, leads, is_large, zero_absent, frame_aligned}
use unos_kernel.Memory.Paging.Ensure.{Ensured}

-- An entry of a table of level `n + 1` covers 2 ^ (12 + 9 * n) bytes.
abbrev pub index : ℕ → ℕ → ℕ
index n v = v / 2 ^ (12 + 9 * n) % 512

pub data Walk : Type 0 where
  missing : Walk
  -- The entry that maps the address, `n` below the level of its table.
  mapped : (n entry : ℕ) → Walk

-- What an entry of a table of level `n + 1` decides, before the walk from the table behind it.
unfoldable pub step : ℕ → ℕ → Walk → Walk
step n e rest =
    if not (present e)
    then Walk.missing
    else if n == 0 || is_large (suc n) e
    then Walk.mapped n e
    else rest

unfoldable pub walk : (ℕ → ℕ) → ℕ → ℕ → ℕ → Walk
walk word zero t v = Walk.missing
walk word (suc n) t v =
    let e = word (slot t (index n v)) in let rest = walk word n (frame e) v in step n e rest

pub walk-suc :
    (n t v : ℕ) (word : ℕ → ℕ)
    → walk word (suc n) t v
      ≡ step n (word (slot t (index n v))) (walk word n (frame (word (slot t (index n v)))) v)
unfolding walk
walk-suc n t v word = refl

pub index-lt : (n v : ℕ) → index n v < 512
index-lt n v = omega arith

pub step_absent : (n e : ℕ) (rest : Walk) → present e ≡ false → step n e rest ≡ Walk.missing
unfolding step
step_absent n e rest gone = rw gone refl

pub step_mapped :
    (n e : ℕ) (rest : Walk)
    → present e ≡ true
    → (n == 0 || is_large (suc n) e) ≡ true
    → step n e rest ≡ Walk.mapped n e
unfolding step
step_mapped n e rest there large = rw (there, large) refl

pub step-leads : (n e : ℕ) (rest : Walk) → leads (suc (suc n)) e ≡ true → step (suc n) e rest ≡ rest
unfolding step
step-leads n e rest lead = ground arith

-- Entries of the table `t` alone decide the step, unless they lead on.
pub step_else :
    (n e : ℕ) (rest rest' : Walk)
    → leads (suc (suc n)) e ≡ false
    → step (suc n) e rest ≡ step (suc n) e rest'
unfolding step
step_else n e rest rest' lead = ground arith

pub step_last : (e : ℕ) (rest rest' : Walk) → step 0 e rest ≡ step 0 e rest'
unfolding step
step_last e rest rest' = ground arith

-- From a table of zeros an address is missing.
pub walk-zeros :
    (n t v : ℕ) (word : ℕ → ℕ)
    → ((j : ℕ) → j < 512 → word (slot t j) ≡ 0)
    → walk word n t v ≡ Walk.missing
unfolding walk
walk-zeros zero t v word zeros = refl
walk-zeros (suc n) t v word zeros =
    step_absent n _ _ (ap present (zeros (index n v) (index-lt n v)) ∙ zero_absent)

-- Making sure of a table changes the walk of no address.
module _ (m m' : Store) (root t i : ℕ) (level prefix level' prefix' : ℕ → ℕ)
    (v : IsTree m root level prefix) (t_aligned : t % page_bytes ≡ 0) (t_level : 2 ≤ level t)
    (i_in : i < 512) (e : Ensured m m' root t i level prefix level' prefix') where
  same_slot : (s j : ℕ) → s % page_bytes ≡ 0 → j < 512 → slot s j ≡ slot t i → (s ≡ t) × (j ≡ i)
  same_slot s j aligned h eq = omega arith

  below_same :
      (n s a : ℕ)
      → s % page_bytes ≡ 0
      → level s ≡ suc n
      → ((u : ℕ) → u % page_bytes ≡ 0 → level u ≡ n → walk m'.word n u a ≡ walk m.word n u a)
      → step n
          (m.word (slot s (index n a)))
          (walk m'.word n (frame (m.word (slot s (index n a)))) a)
        ≡ step n
            (m.word (slot s (index n a)))
            (walk m.word n (frame (m.word (slot s (index n a)))) a)
  below_same zero s a aligned l below = step_last _ _ _
  below_same (suc n) s a aligned l below =
      elim (Bool-cases (leads (suc (suc n)) (m.word (slot s (index (suc n) a))))) [
        | inr stays ↦ step_else n _ _ _ stays
        | inl lead ↦
            let child =
              (v.edge s (index (suc n) a) aligned (omega arith) (index-lt (suc n) a)
                (rw l lead)).0 in
            ap (step (suc n) (m.word (slot s (index (suc n) a))))
              (below _ (frame_aligned _) (omega (arith, child)))
      ]

  -- Where an absent entry was filled, the new table is empty.
  filled :
      (n s a : ℕ)
      → s ≡ t
      → index n a ≡ i
      → present (m.word (slot t i)) ≡ false
      → level s ≡ suc n
      → step n
          (m'.word (slot s (index n a)))
          (walk m'.word n (frame (m'.word (slot s (index n a)))) a)
        ≡ step n
            (m.word (slot s (index n a)))
            (walk m.word n (frame (m.word (slot s (index n a)))) a)
  filled zero s a es ei gone l = absurd (ground arith)
  filled (suc n) s a es ei gone l =
      rw (es, ei)
        (step-leads n _ _ (ap (λ k. leads k (m'.word (slot t i))) (sym lt) ∙ e.lead)
          ∙ walk-zeros (suc n) _ a m'.word (λ j h. e.new_word _ j (e.fresh gone) deep h)
          ∙ sym (step_absent (suc n) _ _ gone))
    where
      lt : level t ≡ suc (suc n)
      lt = ap level (sym es) ∙ l

      deep : level' (frame (m'.word (slot t i))) ≢ 0
      deep = omega (arith, e.child_level, lt)

  pub walk-Ensured :
      (n s a : ℕ) → s % page_bytes ≡ 0 → level s ≡ n → walk m'.word n s a ≡ walk m.word n s a
  unfolding walk
  walk-Ensured zero s a aligned l = refl
  walk-Ensured (suc n) s a aligned l =
      elim (e.same_word s (index n a) aligned (omega arith) (index-lt n a)) [
        | inl same ↦ rw same (below_same n s a aligned l (λ u. walk-Ensured n u a))
        | inr (at, gone) ↦
            let (es, ei) = same_slot s (index n a) aligned (index-lt n a) at in
            filled n s a es ei gone l
      ]
