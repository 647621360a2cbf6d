-- ===== src/Memory/Paging/Physical.antt =====
-- Physical addresses: what the processor gets, and what get_physical_address returns.
use unos_kernel.Prelude.{
  ℕ, zero, suc, ◌+◌, ◌*◌, ◌/◌, ◌%◌, ◌^◌, ◌≤◌, ◌≡◌, ◌≢◌, refl, ◌∙◌, ap, sym, false, arith, Option,
  none, some, Bool-cases, inl, inr, ◌==◌, not, if◌then◌else◌, bit_and,
}
use unos_kernel.Prelude.Bits.{bit_and-low}
use unos_kernel.Memory.Paging.{Store, present, frame, slot, get_physical_address}
use unos_kernel.Memory.Paging.Tree.{IsTree, frame_aligned, leads}
use unos_kernel.Memory.Paging.Walk.{
  Walk, walk, walk-suc, step, step_absent, step-leads, step_mapped, index, index-lt,
}
use unos_kernel.Memory.Paging.Reach.{Reach, Reach-IsPlaced, IsPlaced, start, down}
use unos_kernel.Memory.Paging.Grow.{IsSmall, IsSmall-leads}
use unos_kernel.Memory.Paging.Map.{indices}

-- The address that a walk gives; `none` is a page fault.
abbrev pub physical : Walk → ℕ → Option ℕ
physical Walk.missing v = none
physical (Walk.mapped n e) v =
    some (frame e / 2 ^ (12 + 9 * n) * 2 ^ (12 + 9 * n) + v % 2 ^ (12 + 9 * n))

abbrev pub or_zero : Option ℕ → ℕ
or_zero none = 0
or_zero (some a) = a

-- What get_physical_address makes of the last entry.
abbrev address : ℕ → ℕ → ℕ
address e v = if bit_and e 1 == 0 then 0 else frame e + bit_and v 0xFFF

address_lem : (e v : ℕ) (rest : Walk) → address e v ≡ or_zero (physical (step 0 e rest) v)
unfolding present
address_lem e v rest = elim (Bool-cases (bit_and e 1 == 0)) [
  | inl gone ↦ rw (gone, step_absent 0 e rest (ap not gone)) refl
  | inr there ↦
      rw (there, step_mapped 0 e rest (ap not there) refl) (omega (arith, low, frame_aligned e))
]
  where
    low : bit_and v 0xFFF ≡ v % 2 ^ 12
    low = bit_and-low 12 v

-- get_physical_address from a table of level `n + 1` on.
read : (ℕ → ℕ) → ℕ → ℕ → ℕ → ℕ
read word zero t v = address (word (slot t (index 0 v))) v
read word (suc n) t v =
    let next = frame (word (slot t (index (suc n) v))) in
    let rest = read word n next v in if next == 0 then 0 else rest

get_physical_address-read :
    (word : ℕ → ℕ) (root v : ℕ) → get_physical_address word root v ≡ read word 3 root v
unfolding get_physical_address read
get_physical_address-read word root v = let (i4, i3, i2, i1) = indices v in rw (i4, i3, i2, i1) refl

pub not_zero : (x : ℕ) → x ≢ 0 → (x == 0) ≡ false
not_zero x h = ground arith

pub frame_zero : frame 0 ≡ 0
unfolding frame
frame_zero = refl

module _ (m : Store) (root v : ℕ) (level prefix : ℕ → ℕ) (i : IsTree m root level prefix)
    (small : IsSmall (walk m.word 4 root) 0 v) where
  read-walk :
      (n t : ℕ)
      → Reach m.word v root n t
      → read m.word n t v ≡ or_zero (physical (walk m.word (suc n) t v) v)
  unfolding read
  read-walk zero t r =
      address_lem _ v _ ∙ ap (λ w. or_zero (physical w v)) (sym (walk-suc 0 t v m.word))
  read-walk (suc n) t r = elim (Bool-cases (present (m.word (slot t (index (suc n) v))))) [
    | inl there ↦
        let lead = plain ∙ there in
        let child =
          i.edge t (index (suc n) v) o.aligned two (index-lt (suc n) v)
            (ap (λ k. leads k (m.word (slot t (index (suc n) v)))) o.at_level ∙ lead) in
        let found : (frame (m.word (slot t (index (suc n) v))) == 0) ≡ false =
          not_zero _ (λ z. omega (arith, child, two, ap level z ∙ i.null)) in
        rw found (
          read-walk n _ (down r lead)
          ∙ ap (λ w. or_zero (physical w v))
              (sym (walk-suc (suc n) t v m.word ∙ step-leads n _ _ lead)))
    | inr gone ↦ rw (i.absent t (index (suc n) v) o.aligned two (index-lt (suc n) v) gone) (
        rw frame_zero (
          ap (λ w. or_zero (physical w v))
            (sym (walk-suc (suc n) t v m.word ∙ step_absent (suc n) _ _ gone))))
  ]
    where
      o : IsPlaced level prefix v (suc n) t
      o = Reach-IsPlaced i r

      two : 2 ≤ level t
      two = omega (arith, o.at_level)

      plain :
          leads (suc (suc n)) (m.word (slot t (index (suc n) v)))
          ≡ present (m.word (slot t (index (suc n) v)))
      plain = IsSmall-leads m.word root v n t (λ k e w. omega (arith, small k e w)) r

  -- In a tree of tables, at an address that no large page holds, get_physical_address returns the
  -- address that the processor's walk gives, and 0 where the walk faults.
  pub get_physical_address_lem :
      get_physical_address m.word root v ≡ or_zero (physical (walk m.word 4 root v) v)
  get_physical_address_lem = get_physical_address-read m.word root v ∙ read-walk 3 root start
