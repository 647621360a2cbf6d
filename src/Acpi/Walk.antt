-- ===== src/Acpi/Walk.antt =====
-- What UEFIParseMADT does on any memory.
use unos_kernel.Prelude.{
  ℕ, zero, suc, ◌+◌, ◌*◌, ◌%◌, ◌≤◌, ◌<◌, ◌≡◌, ◌≢◌, refl, ◌∙◌, inl, inr, false, some, List, [], ◌∷◌,
  length, get_elem?, length-set, get_elem?-set_ne, ltb, ◌==◌, Bool-cases, arith,
}
use unos_kernel.Acpi.{
  CpuCore, Tables, set_core, enter_lapic, enter_ioapic, enter_iso, enter, parse_entries,
  uefi_parse_madt, read32, iso_at,
}

-- How the tables may change: the processors are not counted, and only the entry at the count changes;
-- the overrides that were counted stay where they are.
pub record IsKept (s t : Tables) : Type 0 where
  pub count : t.g_cpu_count ≡ s.g_cpu_count
  pub cores : (i : ℕ) → i ≢ s.g_cpu_count → get_elem? t.g_cpu_cores i ≡ get_elem? s.g_cpu_cores i
  pub size : length t.g_iso ≡ length s.g_iso
  pub grows : s.g_iso_count ≤ t.g_iso_count
  pub kept : (i : ℕ) → i < s.g_iso_count → get_elem? t.g_iso i ≡ get_elem? s.g_iso i
  pub room : s.g_iso_count ≤ 24 → t.g_iso_count ≤ 24

IsKept-refl : (s : Tables) → IsKept s s
IsKept-refl s = record {
  count = refl;
  cores = λ i h. refl;
  size = refl;
  grows = omega arith;
  kept = λ i h. refl;
  room = λ h. h;
}

IsKept-trans : (s t u : Tables) → IsKept s t → IsKept t u → IsKept s u
IsKept-trans s t u a b = record {
  count = b.count ∙ a.count;
  cores = λ i h. b.cores i (λ e. h (e ∙ a.count)) ∙ a.cores i h;
  size = b.size ∙ a.size;
  grows = let x = a.grows in let y = b.grows in omega arith;
  kept = λ i h. b.kept i (let x = a.grows in omega arith) ∙ a.kept i h;
  room = λ h. b.room (a.room h);
}

set_core-ne :
    (memory : ℕ → ℕ) (bsp i j entry : ℕ) (cs : List CpuCore)
    → i ≢ j
    → get_elem? (set_core memory bsp j entry cs) i ≡ get_elem? cs i
unfolding set_core
set_core-ne memory bsp i j entry [] h = refl
set_core-ne memory bsp zero zero entry (c ∷ cs) h = absurd (h refl)
set_core-ne memory bsp zero (suc j) entry (c ∷ cs) h = refl
set_core-ne memory bsp (suc i) zero entry (c ∷ cs) h = refl
set_core-ne memory bsp (suc i) (suc j) entry (c ∷ cs) h =
    set_core-ne memory bsp i j entry cs (omega arith)

module _ (memory : ℕ → ℕ) (bsp entry : ℕ) (t : Tables) where
  enter_lapic-IsKept : IsKept t (enter_lapic memory bsp entry t)
  unfolding enter_lapic
  enter_lapic-IsKept = elim (Bool-cases (read32 memory (entry + 4) % 2 == 1)) [
    | inl a ↦ elim (Bool-cases (ltb t.g_cpu_count 256)) [
      | inl b ↦
          rw (a, b)
            (record {
              count = refl;
              cores = λ i h. set_core-ne memory bsp i t.g_cpu_count entry t.g_cpu_cores h;
              size = refl;
              grows = omega arith;
              kept = λ i h. refl;
              room = λ h. h;
            })
      | inr b ↦ rw (a, b) (IsKept-refl t)
    ]
    | inr a ↦ rw a (IsKept-refl t)
  ]

  enter_ioapic-IsKept : IsKept t (enter_ioapic memory entry t)
  unfolding enter_ioapic
  enter_ioapic-IsKept = record {
    count = refl;
    cores = λ i h. refl;
    size = refl;
    grows = omega arith;
    kept = λ i h. refl;
    room = λ h. h;
  }

  enter_iso-IsKept : IsKept t (enter_iso memory entry t)
  unfolding enter_iso
  enter_iso-IsKept = elim (Bool-cases (ltb t.g_iso_count 24)) [
    | inl a ↦ rw a (record {
      count = refl;
      cores = λ i h. refl;
      size = length-set t.g_iso t.g_iso_count (iso_at memory entry);
      grows = omega arith;
      kept = λ i h. get_elem?-set_ne t.g_iso (iso_at memory entry) (λ e. omega (arith, e));
      room = λ h. ground arith;
    })
    | inr a ↦ rw a (IsKept-refl t)
  ]

  enter-IsKept : IsKept t (enter memory bsp entry t)
  unfolding enter
  enter-IsKept = elim (Bool-cases (memory entry == 0)) [
    | inl a ↦ rw a enter_lapic-IsKept
    | inr a ↦ elim (Bool-cases (memory entry == 1)) [
      | inl b ↦ rw (a, b) enter_ioapic-IsKept
      | inr b ↦ elim (Bool-cases (memory entry == 2)) [
        | inl c ↦ rw (a, b, c) enter_iso-IsKept
        | inr c ↦ rw (a, b, c) (IsKept-refl t)
      ]
    ]
  ]

parse_entries-IsKept :
    (memory : ℕ → ℕ) (fuel bsp entry end : ℕ) (t : Tables)
    → end ≤ entry + fuel * 2
    → (u : Tables) × (parse_entries memory (suc fuel) bsp entry end t ≡ some u) × IsKept t u
unfolding parse_entries
parse_entries-IsKept memory zero bsp entry end t h =
    let stop : ltb entry end ≡ false = ground arith in (t, rw stop refl, IsKept-refl t)
parse_entries-IsKept memory (suc fuel) bsp entry end t h = elim (Bool-cases (ltb entry end)) [
  | inl a ↦ elim (Bool-cases (ltb (memory (entry + 1)) 2)) [
    | inl b ↦ (t, rw (a, b) refl, IsKept-refl t)
    | inr b ↦ elim (Bool-cases (ltb end (entry + memory (entry + 1)))) [
      | inl c ↦ (t, rw (a, b, c) refl, IsKept-refl t)
      | inr c ↦
          let next = enter memory bsp entry t in
          let later =
            parse_entries-IsKept memory fuel bsp (entry + memory (entry + 1)) end next
              (ground arith) in
          (
            later.0,
            rw (a, b, c) later.1,
            IsKept-trans t next later.0 (enter-IsKept memory bsp entry t) later.2,
          )
    ]
  ]
  | inr a ↦ (t, rw a refl, IsKept-refl t)
]

-- Whatever bytes the memory holds, UEFIParseMADT ends within half as many turns as the table has
-- bytes behind its header, and one more. It keeps the number of processors, and with it all but
-- one entry of g_cpu_cores, leaves every override counted before as it is, and counts at most 24 of them if no
-- more were counted before.
pub uefi_parse_madt-IsKept :
    (memory : ℕ → ℕ) (fuel bsp madt : ℕ) (t : Tables)
    → read32 memory (madt + 4) ≤ 44 + fuel * 2
    → (u : Tables) × (uefi_parse_madt memory (suc fuel) bsp madt t ≡ some u) × IsKept t u
unfolding uefi_parse_madt
uefi_parse_madt-IsKept memory fuel bsp madt t h =
    parse_entries-IsKept memory fuel bsp (madt + 44) (madt + read32 memory (madt + 4)) t
      (omega arith)
