-- ===== src/Acpi/Overrides.antt =====
-- The interrupt source overrides of a table, and the lines that they redirect.
use unos_kernel.Prelude.{
  ◌^◌, ℕ, zero, suc, ◌+◌, ◌*◌, ◌%◌, ◌≤◌, ◌<◌, ◌≡◌, ◌≢◌, refl, sym, ◌∙◌, ap, ap₂, subst, inl, inr,
  true, false, some, List, [], ◌∷◌, ◌++◌, length, length-append, take, set, ltb, ◌==◌,
  if◌then◌else◌, Bool-cases, arith,
}
use unos_kernel.Prelude.Slices.{append_nil, take-append, take_all}
use unos_kernel.Acpi.{
  read16, Tables, IsoInfo, enter_lapic, enter_ioapic, enter_iso, enter, parse_entries,
  uefi_parse_madt, read32, iso_at, find_gsi, uefi_find_gsi_for_irq,
}

-- An interrupt source override of ten bytes: the line, the interrupt and the flags, the lowest byte
-- of a number first.
pub record IsOverride (memory : ℕ → ℕ) (entry : ℕ) (v : IsoInfo) : Type 0 where
  pub kind : memory entry ≡ 2
  pub whole : 10 ≤ memory (entry + 1)
  pub line : memory (entry + 3) ≡ v.irq_source
  pub interrupt :
      memory (entry + 4)
        + memory (entry + 5) * 2 ^ 8
        + memory (entry + 6) * 2 ^ 16
        + memory (entry + 7) * 2 ^ 24
      ≡ v.gsi
  pub flags : memory (entry + 8) + memory (entry + 9) * 2 ^ 8 ≡ v.flags

-- The overrides among the entries from `entry` to `end`, up to the first entry that is no entry.
pub data Lists (memory : ℕ → ℕ) (end : ℕ) : ℕ → List IsoInfo → Type 0 where
  finish : (entry : ℕ) → end ≤ entry → Lists memory end entry []
  short : (entry : ℕ) → memory (entry + 1) < 2 → Lists memory end entry []
  overrun : (entry : ℕ) → end < entry + memory (entry + 1) → Lists memory end entry []
  override :
      (entry : ℕ) (v : IsoInfo) (vs : List IsoInfo)
      → IsOverride memory entry v
      → entry + memory (entry + 1) ≤ end
      → Lists memory end (entry + memory (entry + 1)) vs
      → Lists memory end entry (v ∷ vs)
  other :
      (entry : ℕ) (vs : List IsoInfo)
      → memory entry ≢ 2
      → 2 ≤ memory (entry + 1)
      → entry + memory (entry + 1) ≤ end
      → Lists memory end (entry + memory (entry + 1)) vs
      → Lists memory end entry vs

-- The interrupt of the first override for a line, or the line itself.
abbrev pub redirected : List IsoInfo → ℕ → ℕ
redirected [] irq = irq
redirected (v ∷ vs) irq = if v.irq_source == irq then v.gsi else redirected vs irq

-- The overrides that are counted, in front of the entries that are free.
record Holds (vs : List IsoInfo) (t : Tables) : Type 0 where
  count : t.g_iso_count ≡ length vs
  free : List IsoInfo
  table : t.g_iso ≡ vs ++ free
  size : length vs + length free ≡ 24

set-append :
    (vs : List IsoInfo) (v w : IsoInfo) (ws : List IsoInfo)
    → set (vs ++ w ∷ ws) (length vs) v ≡ (vs ++ v ∷ []) ++ ws
set-append [] v w ws = refl
set-append (x ∷ vs) v w ws = ap (λ l. x ∷ l) (set-append vs v w ws)

append_assoc : (vs ws us : List IsoInfo) → (vs ++ ws) ++ us ≡ vs ++ (ws ++ us)
append_assoc [] ws us = refl
append_assoc (x ∷ vs) ws us = ap (λ l. x ∷ l) (append_assoc vs ws us)

find_gsi-redirected :
    (vs ws : List IsoInfo) (irq : ℕ) → find_gsi (length vs) (vs ++ ws) irq ≡ redirected vs irq
unfolding find_gsi
find_gsi-redirected [] ws irq = refl
find_gsi-redirected (v ∷ vs) ws irq =
    ap (λ n. if v.irq_source == irq then v.gsi else n) (find_gsi-redirected vs ws irq)

module _ (memory : ℕ → ℕ) (bsp entry : ℕ) (vs : List IsoInfo) (t : Tables) (h : Holds vs t) where
  enter-other : memory entry ≢ 2 → Holds vs (enter memory bsp entry t)
  unfolding enter enter_lapic enter_ioapic
  enter-other ne =
      let no_iso : (memory entry == 2) ≡ false = ground arith in
      elim (Bool-cases (memory entry == 0)) [
        | inl a ↦ elim (Bool-cases (read32 memory (entry + 4) % 2 == 1)) [
          | inl b ↦ elim (Bool-cases (ltb t.g_cpu_count 256)) [
            | inl c ↦
                rw (a, b, c)
                  (record { count = h.count; free = h.free; table = h.table; size = h.size })
            | inr c ↦ rw (a, b, c) h
          ]
          | inr b ↦ rw (a, b) h
        ]
        | inr a ↦ elim (Bool-cases (memory entry == 1)) [
          | inl b ↦
              rw (a, b) (record { count = h.count; free = h.free; table = h.table; size = h.size })
          | inr b ↦ rw (a, b, no_iso) h
        ]
      ]

  enter-room :
      (w : IsoInfo) (ws : List IsoInfo)
      → memory entry ≡ 2
      → h.free ≡ w ∷ ws
      → Holds (vs ++ iso_at memory entry ∷ []) (enter memory bsp entry t)
  unfolding enter enter_iso
  enter-room w ws e f =
      let size = h.size in
      let longer : length vs + suc (length ws) ≡ 24 =
        ap (λ l. length vs + length l) (sym f) ∙ size in
      let a : (memory entry == 0) ≡ false = ground arith in
      let b : (memory entry == 1) ≡ false = ground arith in
      let c : (memory entry == 2) ≡ true = ground arith in
      let fits : ltb (length vs) 24 ≡ true = ground arith in
      let here = length-append vs (iso_at memory entry ∷ []) in
      rw (a, b, c, h.count, fits)
        (record {
          count = sym here;
          free = ws;
          table =
              ap (λ l. set l (length vs) (iso_at memory entry)) (h.table ∙ ap (λ l. vs ++ l) f)
              ∙ set-append vs (iso_at memory entry) w ws;
          size = omega (arith, here);
        })

  enter-full :
      memory entry ≡ 2 → h.free ≡ [] → Holds vs (enter memory bsp entry t) × (24 ≤ length vs)
  unfolding enter enter_iso
  enter-full e f =
      let size = h.size in
      let full : length vs + 0 ≡ 24 = ap (λ l. length vs + length l) (sym f) ∙ size in
      let a : (memory entry == 0) ≡ false = ground arith in
      let b : (memory entry == 1) ≡ false = ground arith in
      let c : (memory entry == 2) ≡ true = ground arith in
      let no_room : ltb (length vs) 24 ≡ false = ground arith in
      let no_more : ltb t.g_iso_count 24 ≡ false = rw h.count no_room in
      (rw (a, b, c, no_more) h, omega arith)

Holds-stop : (vs : List IsoInfo) (t : Tables) → Holds vs t → Holds (take 24 (vs ++ [])) t
Holds-stop vs t h =
    let size = h.size in
    let whole : take 24 (vs ++ []) ≡ vs =
      ap (λ l. take 24 l) (append_nil vs) ∙ take_all 24 vs (omega arith) in
    subst (λ l. Holds l t) (sym whole) h

Holds-step :
    (memory : ℕ → ℕ) (bsp entry : ℕ) (vs os : List IsoInfo) (t : Tables)
    → Holds vs t
    → memory entry ≡ 2
    → (ws : List IsoInfo) × Holds ws (enter memory bsp entry t)
      × (take 24 (ws ++ os) ≡ take 24 (vs ++ iso_at memory entry ∷ os))
Holds-step memory bsp entry vs os t h e = go h.free refl
  where
    go :
        (fs : List IsoInfo)
        → h.free ≡ fs
        → (ws : List IsoInfo) × Holds ws (enter memory bsp entry t)
          × (take 24 (ws ++ os) ≡ take 24 (vs ++ iso_at memory entry ∷ os))
    go [] f =
        let full = enter-full memory bsp entry vs t h e f in
        (
          vs,
          full.0,
          take-append 24 vs os full.1 ∙ sym (take-append 24 vs (iso_at memory entry ∷ os) full.1),
        )
    go (w ∷ ws) f = (
      vs ++ iso_at memory entry ∷ [],
      enter-room memory bsp entry vs t h w ws e f,
      ap (λ l. take 24 l) (append_assoc vs (iso_at memory entry ∷ []) os),
    )

iso_at-IsOverride :
    (memory : ℕ → ℕ) (entry : ℕ) (v : IsoInfo) → IsOverride memory entry v → iso_at memory entry ≡ v
iso_at-IsOverride memory entry v o =
    let line = o.line in
    let interrupt : read32 memory (entry + 4) ≡ v.gsi =
      ap (λ n. memory (entry + 4) + memory n * 0x100 + read16 memory (entry + 4 + 2) * 0x10000)
        {x = entry + 4 + 1} {y = entry + 5} (omega arith)
      ∙ ap₂
          (λ n m.
            memory (entry + 4)
            + memory (entry + 5) * 0x100
            + (memory n + memory m * 0x100) * 0x10000)
          {x = entry + 4 + 2} {y = entry + 6} {u = entry + 4 + 2 + 1} {v = entry + 7} (omega arith)
          (omega arith)
      ∙ omega (arith, o.interrupt) in
    let flags : read16 memory (entry + 8) ≡ v.flags =
      ap (λ n. memory (entry + 8) + memory n * 0x100) {x = entry + 8 + 1} {y = entry + 9}
        (omega arith)
      ∙ omega (arith, o.flags) in
    ap₂ (λ a b. record { irq_source = a; gsi = b; flags = read16 memory (entry + 8) }) line
      interrupt
    ∙ ap (λ c. record v { flags = c }) flags

-- The first 24 of the overrides, behind those already counted.
parse_entries-Lists :
    (memory : ℕ → ℕ) (bsp end fuel entry : ℕ) (vs os : List IsoInfo) (t : Tables)
    → end ≤ entry + fuel * 2
    → Lists memory end entry os
    → Holds vs t
    → (u : Tables) × (parse_entries memory (suc fuel) bsp entry end t ≡ some u)
      × Holds (take 24 (vs ++ os)) u
unfolding parse_entries
parse_entries-Lists memory bsp end fuel entry vs os t h (Lists.finish _ stop) k =
    let a : ltb entry end ≡ false = ground arith in (t, rw a refl, Holds-stop vs t k)
parse_entries-Lists memory bsp end fuel entry vs os t h (Lists.short _ stop) k =
    let b : ltb (memory (entry + 1)) 2 ≡ true = ground arith in
    elim (Bool-cases (ltb entry end)) [
      | inl a ↦ (t, rw (a, b) refl, Holds-stop vs t k)
      | inr a ↦ (t, rw a refl, Holds-stop vs t k)
    ]
parse_entries-Lists memory bsp end fuel entry vs os t h (Lists.overrun _ stop) k =
    let c : ltb end (entry + memory (entry + 1)) ≡ true = ground arith in
    elim (Bool-cases (ltb entry end)) [
      | inl a ↦ elim (Bool-cases (ltb (memory (entry + 1)) 2)) [
        | inl b ↦ (t, rw (a, b) refl, Holds-stop vs t k)
        | inr b ↦ (t, rw (a, b, c) refl, Holds-stop vs t k)
      ]
      | inr a ↦ (t, rw a refl, Holds-stop vs t k)
    ]
parse_entries-Lists memory bsp end zero entry vs os t h (Lists.override _ v os' o fits l) k =
    let whole = o.whole in absurd (omega arith)
parse_entries-Lists memory bsp end (suc fuel) entry vs os t h (Lists.override _ v os' o fits l) k =
    let whole = o.whole in
    let a : ltb entry end ≡ true = ground arith in
    let b : ltb (memory (entry + 1)) 2 ≡ false = ground arith in
    let c : ltb end (entry + memory (entry + 1)) ≡ false = ground arith in
    let next = enter memory bsp entry t in
    let step = Holds-step memory bsp entry vs os' t k o.kind in
    let later =
      parse_entries-Lists memory bsp end fuel (entry + memory (entry + 1)) step.0 os' next
        (omega arith) l step.1 in
    let same = ap (λ x. take 24 (vs ++ x ∷ os')) (iso_at-IsOverride memory entry v o) in
    (later.0, rw (a, b, c) later.1, subst (λ x. Holds x later.0) (step.2 ∙ same) later.2)
parse_entries-Lists memory bsp end zero entry vs os t h (Lists.other _ _ e size fits l) k =
    absurd (omega arith)
parse_entries-Lists memory bsp end (suc fuel) entry vs os t h (Lists.other _ _ e size fits l) k =
    let a : ltb entry end ≡ true = ground arith in
    let b : ltb (memory (entry + 1)) 2 ≡ false = ground arith in
    let c : ltb end (entry + memory (entry + 1)) ≡ false = ground arith in
    let next = enter memory bsp entry t in
    let later =
      parse_entries-Lists memory bsp end fuel (entry + memory (entry + 1)) vs os next (omega arith)
        l (enter-other memory bsp entry vs t k e) in
    (later.0, rw (a, b, c) later.1, later.2)

-- When no override is counted before, UEFIParseMADT ends within half as many turns as the table
-- has bytes behind its header, and one more. UEFIFindGSIForIRQ then gives for every line the
-- interrupt of the first of the first 24 overrides that name the line, or the line itself.
pub uefi_find_gsi_for_irq-redirected :
    (memory : ℕ → ℕ) (fuel bsp madt : ℕ) (os : List IsoInfo) (t : Tables)
    → read32 memory (madt + 4) ≤ 44 + fuel * 2
    → Lists memory (madt + read32 memory (madt + 4)) (madt + 44) os
    → t.g_iso_count ≡ 0
    → length t.g_iso ≡ 24
    → (u : Tables) × (uefi_parse_madt memory (suc fuel) bsp madt t ≡ some u)
      × ((irq : ℕ) → uefi_find_gsi_for_irq u irq ≡ redirected (take 24 os) irq)
unfolding uefi_parse_madt uefi_find_gsi_for_irq
uefi_find_gsi_for_irq-redirected memory fuel bsp madt os t h l none_yet room =
    let start : Holds [] t = record {
      count = none_yet;
      free = t.g_iso;
      table = refl;
      size = omega arith;
    } in
    let result =
      parse_entries-Lists memory bsp (madt + read32 memory (madt + 4)) fuel (madt + 44) [] os t
        (omega arith) l start in
    let u = result.0 in
    let k = result.2 in
    (
      u,
      result.1,
      λ irq.
          ap₂ (λ n l. find_gsi n l irq) k.count k.table
          ∙ find_gsi-redirected (take 24 os) k.free irq,
    )
