-- ===== src/Memory/Paging/Directory.antt =====
-- virt_to_phys of kernel/memory/paging.c, which takes every address to lie in a 2 MiB page.
use unos_kernel.Prelude.{
  ℕ, zero, suc, ◌+◌, ◌*◌, ◌/◌, ◌%◌, ◌^◌, ◌≤◌, ◌<◌, ◌≡◌, refl, ◌∙◌, ap, sym, true, false, arith,
  some, Bool-cases, inl, inr, ◌==◌, not, if◌then◌else◌, bit_and,
}
use unos_kernel.Prelude.Bits.{bit_and-low}
use unos_kernel.Memory.Paging.{Store, present, frame, large_frame, slot, virt_to_phys}
use unos_kernel.Memory.Paging.Tree.{IsTree, leads, is_large, frame_lem}
use unos_kernel.Memory.Paging.Walk.{Walk, walk, walk-suc, step_absent, step_mapped, index, index-lt}
use unos_kernel.Memory.Paging.Reach.{Reach, Reach-walk, Reach-IsPlaced, IsPlaced, start, down}
use unos_kernel.Memory.Paging.Grow.{IsSmall, IsSmall-leads}
use unos_kernel.Memory.Paging.Map.{indices}
use unos_kernel.Memory.Paging.Physical.{physical, not_zero}
use unos_kernel.Memory.Paging.Identity.{large_frame_lem}

-- virt_to_phys from a table of level `n + 2` on.
read : (ℕ → ℕ) → ℕ → ℕ → ℕ → ℕ
read word zero t v =
    let pde = word (slot t (index 1 v)) in
    if not (present pde) then 0 else (large_frame pde + bit_and v 0x1F_FFFF) % 2 ^ 64
read word (suc n) t v =
    let next = frame (word (slot t (index (suc (suc n)) v))) in
    let rest = read word n next v in if next == 0 then 0 else rest

virt_to_phys-read : (word : ℕ → ℕ) (root v : ℕ) → virt_to_phys word root v ≡ read word 2 root v
unfolding virt_to_phys read
virt_to_phys-read word root v = let (i4, i3, i2, i1) = indices v in rw (i4, i3, i2) refl

module _ (m : Store) (root v e : ℕ) (level prefix : ℕ → ℕ) (i : IsTree m root level prefix)
    (at : walk m.word 4 root v ≡ Walk.mapped 1 e) (low : e < 2 ^ 52) where
  small : (n : ℕ) → IsSmall (walk m.word 4 root) (suc n) v
  small n k e' w = ground (arith, at, w)

  present_at : (n t : ℕ) → Reach m.word v root n t → present (m.word (slot t (index n v))) ≡ true
  present_at n t r = elim (Bool-cases (present (m.word (slot t (index n v))))) [
    | inl there ↦ there
    | inr gone ↦
        absurd (ground (arith, at, Reach-walk r ∙ walk-suc n t v m.word ∙ step_absent n _ _ gone))
  ]

  -- The walk ends at the entry of the page directory.
  directory_entry : (t : ℕ) → Reach m.word v root 1 t → m.word (slot t (index 1 v)) ≡ e
  directory_entry t r = elim (Bool-cases (is_large 2 (m.word (slot t (index 1 v))))) [
    | inl big ↦
        ground (
          arith,
          at,
          Reach-walk r ∙ walk-suc 1 t v m.word ∙ step_mapped 1 _ _ (present_at 1 t r) big,
        )
    | inr table ↦
        let r' = down r (leads_both (present_at 1 t r) table) in
        absurd (
          ground (
            arith,
            at,
            Reach-walk r' ∙ walk-suc 0 _ v m.word ∙ step_mapped 0 _ _ (present_at 0 _ r') refl,
          ))
  ]
    where
      leads_both :
          present (m.word (slot t (index 1 v))) ≡ true
          → is_large 2 (m.word (slot t (index 1 v))) ≡ false
          → leads 2 (m.word (slot t (index 1 v))) ≡ true
      leads_both there table = ground arith

  read-walk :
      (n t : ℕ)
      → Reach m.word v root (suc n) t
      → read m.word n t v ≡ e / 2 ^ 21 * 2 ^ 21 + v % 2 ^ 21
  unfolding read
  read-walk zero t r =
      rw (directory_entry t r, present_e) (omega (arith, low, large_frame_lem e, bit_and-low 21 v))
    where
      present_e : present e ≡ true
      present_e = ap present (sym (directory_entry t r)) ∙ present_at 1 t r
  read-walk (suc n) t r = rw found (read-walk n _ (down r lead))
    where
      o : IsPlaced level prefix v (suc (suc n)) t
      o = Reach-IsPlaced i r

      two : 2 ≤ level t
      two = omega (arith, o.at_level)

      lead : leads (suc (suc (suc n))) (m.word (slot t (index (suc (suc n)) v))) ≡ true
      lead = IsSmall-leads m.word root v (suc n) t (small n) r ∙ present_at (suc (suc n)) t r

      found : (frame (m.word (slot t (index (suc (suc n)) v))) == 0) ≡ false
      found =
          let child =
            i.edge t (index (suc (suc n)) v) o.aligned two (index-lt (suc (suc n)) v)
              (ap (λ k. leads k (m.word (slot t (index (suc (suc n)) v)))) o.at_level ∙ lead) in
          not_zero _ (λ z. omega (arith, child, two, ap level z ∙ i.null))

  -- In a tree of tables, at an address in a 2 MiB page whose entry is below 2 ^ 52, virt_to_phys
  -- returns the address that the processor gets.
  pub virt_to_phys_lem : some (virt_to_phys m.word root v) ≡ physical (walk m.word 4 root v) v
  virt_to_phys_lem =
      ap some
        (virt_to_phys-read m.word root v ∙ read-walk 2 root start ∙ omega (arith, low, frame_lem e))
      ∙ ap (λ w. physical w v) (sym at)
