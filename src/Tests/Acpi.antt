-- ===== src/Tests/Acpi.antt =====
-- acpi/madt.c at small inputs.
use unos_kernel.Prelude.{
  ℕ, ◌-◌, ◌≤◌, ◌≡◌, refl, some, List, [], ◌∷◌, replicate, take, get_or, arith, ◌++◌,
}
use unos_kernel.Acpi.{IsoInfo, Tables, uefi_parse_madt, uefi_find_gsi_for_irq}
use unos_kernel.Acpi.Walk.{IsKept, uefi_parse_madt-IsKept}
use unos_kernel.Acpi.Overrides.{IsOverride, Lists, redirected, uefi_find_gsi_for_irq-redirected}
use unos_kernel.Acpi.Apic.{
  Lapic, calibrate_lapic_bus_hz, setup_lapic_timer, calibrate_lapic_bus_hz_lem,
}

-- A table of 62 bytes: a processor, and the timer on the interrupt 2.
abbrev bytes : List ℕ
bytes =
    0
    ∷ 0
    ∷ 0
    ∷ 0
    ∷ 62
    ∷ 0
    ∷ 0
    ∷ 0
    ∷ (replicate 36 0
        ++ 0 ∷ 8 ∷ 0 ∷ 7 ∷ 1 ∷ 0 ∷ 0 ∷ 0 ∷ 2 ∷ 10 ∷ 0 ∷ 0 ∷ 2 ∷ 0 ∷ 0 ∷ 0 ∷ 0 ∷ 0 ∷ [])

abbrev memory : ℕ → ℕ
memory a = get_or bytes a 0

abbrev fresh : Tables
fresh = record {
  g_ioapic = record { ioapic_addr = 0; gsi_base = 0; ioapic_id = 0 };
  io_apic_address = 0;
  g_iso = replicate 24 (record { irq_source = 0; gsi = 0; flags = 0 });
  g_iso_count = 0;
  g_cpu_cores = [];
  g_cpu_count = 0;
}

uefi_parse_madt-IsKept_example :
    (u : Tables) × (uefi_parse_madt memory 10 7 0 fresh ≡ some u) × IsKept fresh u
uefi_parse_madt-IsKept_example = uefi_parse_madt-IsKept memory 9 7 0 fresh (omega arith)

abbrev timer : IsoInfo
timer = record { irq_source = 0; gsi = 2; flags = 0 }

timer-IsOverride : IsOverride memory 52 timer
timer-IsOverride = record {
  kind = refl;
  whole = omega arith;
  line = refl;
  interrupt = refl;
  flags = refl;
}

listed : Lists memory 62 44 (timer ∷ [])
listed =
    Lists.other 44 (timer ∷ []) (omega arith) (omega arith) (omega arith)
      (Lists.override 52 timer [] timer-IsOverride (omega arith) (Lists.finish 62 (omega arith)))

uefi_find_gsi_for_irq-redirected_example :
    (u : Tables) × (uefi_parse_madt memory 10 7 0 fresh ≡ some u)
    × ((irq : ℕ) → uefi_find_gsi_for_irq u irq ≡ redirected (take 24 (timer ∷ [])) irq)
uefi_find_gsi_for_irq-redirected_example =
    uefi_find_gsi_for_irq-redirected memory 9 7 0 (timer ∷ []) fresh (omega arith) listed refl refl

timer_on_two : redirected (timer ∷ []) 0 ≡ 2
timer_on_two = refl

-- The count falls by one at each read.
abbrev falling : ℕ → ℕ
falling i = 3 - i

falling_stays : (i j : ℕ) → i ≤ j → falling i ≡ 0 → falling j ≡ 0
falling_stays i j le h = omega arith

calibrate_lapic_bus_hz_lem_example :
    (r : Lapic × ℕ) × (calibrate_lapic_bus_hz 9 falling ≡ some r)
    × (r.1 ≡ 4294967196)
    × ((setup_lapic_timer r.1).initial_count ≡ 42949671)
calibrate_lapic_bus_hz_lem_example =
    calibrate_lapic_bus_hz_lem 9 falling 3 (omega arith) refl falling_stays
