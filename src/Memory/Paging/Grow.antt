-- ===== src/Memory/Paging/Grow.antt =====
-- The tables on the way to an address, made where they are missing.
use unos_kernel.Prelude.{
  ℕ, suc, ◌+◌, ◌%◌, ◌^◌, ◌≤◌, ◌<◌, ◌≡◌, ◌∙◌, ap, sym, true, arith, Bool-cases, inl, inr,
}
use unos_kernel.Memory.Paging.{Store, page_bytes, present, frame, slot, ensure, kernel_entry}
use unos_kernel.Memory.Paging.Tree.{IsTree, leads, leads-present}
use unos_kernel.Memory.Paging.Ensure.{Ensured, ensure-Ensured}
use unos_kernel.Memory.Paging.Walk.{
  Walk, walk, walk-suc, step_mapped, index, index-lt, walk-Ensured,
}
use unos_kernel.Memory.Paging.Reach.{Reach, Reach-walk, Reach-IsPlaced, Reach-agree, down}

-- No page larger than those of the tables of level `n + 1` holds `v`.
abbrev pub IsSmall : (ℕ → Walk) → ℕ → ℕ → Type 0
IsSmall seen n v = (k e : ℕ) → seen v ≡ Walk.mapped k e → k ≤ n

-- Where a small address is present, its entries lead on.
pub IsSmall-leads :
    (word : ℕ → ℕ) (root v n t : ℕ)
    → IsSmall (walk word 4 root) n v
    → Reach word v root (suc n) t
    → leads (suc (suc n)) (word (slot t (index (suc n) v)))
      ≡ present (word (slot t (index (suc n) v)))
IsSmall-leads word root v n t small r =
    elim (Bool-cases (leads (suc (suc n)) (word (slot t (index (suc n) v))))) [
      | inl lead ↦ lead ∙ sym (leads-present _ _ lead)
      | inr stays ↦ elim (Bool-cases (present (word (slot t (index (suc n) v))))) [
        | inr gone ↦ stays ∙ sym gone
        | inl there ↦
            let found : walk word 4 root v ≡ Walk.mapped (suc n) (word (slot t (index (suc n) v))) =
              Reach-walk r
              ∙ walk-suc (suc n) t v word
              ∙ step_mapped (suc n) _ _ there (ground (arith, stays, there)) in
            absurd (omega (arith, small (suc n) _ found))
      ]
    ]

-- The state between two rounds of the walk: a tree, with the table that `v` has got to.
pub record At (m : Store) (root v n t : ℕ) (seen : ℕ → Walk) : Type 0 where
  pub level : ℕ → ℕ
  pub prefix : ℕ → ℕ
  pub tree : IsTree m root level prefix
  pub reach : Reach m.word v root n t
  pub walks : (a : ℕ) → walk m.word 4 root a ≡ seen a

-- Entries that are present stay.
Ensured-agree :
    {m m' : Store} {root t i : ℕ} {level prefix level' prefix' : ℕ → ℕ}
    → Ensured m m' root t i level prefix level' prefix'
    → (s j : ℕ) → s % page_bytes ≡ 0
    → 2 ≤ level s
    → j < 512
    → present (m.word (slot s j)) ≡ true
    → m'.word (slot s j) ≡ m.word (slot s j)
Ensured-agree {m = m} e s j aligned two h there = elim (e.same_word s j aligned (omega arith) h) [
  | inl same ↦ same
  | inr (at, gone) ↦ absurd (ground (arith, there, ap (λ a. present (m.word a)) at, gone))
]

pub At-down :
    (m : Store) (root v n t : ℕ) (seen : ℕ → Walk)
    → IsSmall seen n v
    → m.next_free + page_bytes < 2 ^ 52
    → At m root v (suc n) t seen
    → let m' = ensure kernel_entry m (slot t (index (suc n) v)) in
      At m' root v n (frame (m'.word (slot t (index (suc n) v)))) seen
      × (m'.next_free ≤ m.next_free + page_bytes)
At-down m root v n t seen small room s =
    let m' = ensure kernel_entry m (slot t (index (suc n) v)) in
    let o = Reach-IsPlaced s.tree s.reach in
    let two : 2 ≤ s.level t = omega (arith, o.at_level) in
    let h = index-lt (suc n) v in
    let plain =
      IsSmall-leads m.word root v n t (λ k e w. small k e (sym (s.walks v) ∙ w)) s.reach in
    let (level', prefix', e) =
      ensure-Ensured m root t (index (suc n) v) s.level s.prefix s.tree o.aligned two h room
        (ap (λ k. leads k (m.word (slot t (index (suc n) v)))) o.at_level ∙ plain) in
    (
      record {
        level = level';
        prefix = prefix';
        tree = e.tree;
        reach =
            down
              (Reach-agree s.tree (λ u j aligned high. Ensured-agree e u j aligned (omega arith))
                s.reach)
              (ap (λ k. leads k (m'.word (slot t (index (suc n) v)))) (sym o.at_level) ∙ e.lead);
        walks = λ a.
            walk-Ensured m _ root t _ _ _ _ _ s.tree o.aligned two h e 4 root a s.tree.root_aligned
              s.tree.root_level
            ∙ s.walks a;
      },
      e.growth,
    )
