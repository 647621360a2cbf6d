-- ===== src/Acpi.antt =====
-- acpi/madt.c: the walk over the entries of the MADT and the lines that it redirects. The memory is
-- a function from addresses to bytes; addresses do not wrap around.
use unos_kernel.Prelude.{
  ℕ, zero, suc, ◌+◌, ◌*◌, ◌%◌, Bool, true, false, Option, none, some, List, [], ◌∷◌, set, ltb, ◌==◌,
  if◌then◌else◌,
}
pub mod Walk
pub mod Overrides
pub mod Apic

pub record IoapicInfo : Type 0 where
  pub ioapic_addr : ℕ
  pub gsi_base : ℕ
  pub ioapic_id : ℕ

pub record IsoInfo : Type 0 where
  pub irq_source : ℕ
  pub gsi : ℕ
  pub flags : ℕ

pub record CpuCore : Type 0 where
  pub processor_id : ℕ
  pub apic_id : ℕ
  pub is_bsp : Bool
  pub started : Bool

-- The variables of the file.
pub record Tables : Type 0 where
  pub g_ioapic : IoapicInfo
  pub io_apic_address : ℕ
  pub g_iso : List IsoInfo
  pub g_iso_count : ℕ
  pub g_cpu_cores : List CpuCore
  pub g_cpu_count : ℕ

abbrev pub max_iso_entries : ℕ
max_iso_entries = 24

abbrev pub max_cpu_count : ℕ
max_cpu_count = 256

module _ (memory : ℕ → ℕ) where
  abbrev pub read16 : ℕ → ℕ
  read16 a = memory a + memory (a + 1) * 0x100

  abbrev pub read32 : ℕ → ℕ
  read32 a = read16 a + read16 (a + 2) * 0x10000

  abbrev pub iso_at : ℕ → IsoInfo
  iso_at entry = record {
    irq_source = memory (entry + 3);
    gsi = read32 (entry + 4);
    flags = read16 (entry + 8);
  }

  -- The field `started` keeps its value.
  pub set_core : ℕ → ℕ → ℕ → List CpuCore → List CpuCore
  set_core bsp i entry [] = []
  set_core bsp zero entry (c ∷ cs) =
      record {
        processor_id = memory (entry + 2);
        apic_id = memory (entry + 3);
        is_bsp = memory (entry + 3) == bsp;
        started = c.started;
      }
      ∷ cs
  set_core bsp (suc i) entry (c ∷ cs) = c ∷ set_core bsp i entry cs

  -- Bit 0 of the flags says that the processor is enabled.
  pub enter_lapic : ℕ → ℕ → Tables → Tables
  enter_lapic bsp entry t =
      if read32 (entry + 4) % 2 == 1
      then (if ltb t.g_cpu_count max_cpu_count
          then record t { g_cpu_cores = set_core bsp t.g_cpu_count entry t.g_cpu_cores }
          else t)
      else t

  pub enter_ioapic : ℕ → Tables → Tables
  enter_ioapic entry t =
      let address = read32 (entry + 4) in
      let base = read32 (entry + 8) in
      record t {
        g_ioapic = record {
          ioapic_addr = address;
          gsi_base = if address == 0xFEC00000 then 0 else base;
          ioapic_id = memory (entry + 2);
        };
        io_apic_address = address;
      }

  pub enter_iso : ℕ → Tables → Tables
  enter_iso entry t =
      if ltb t.g_iso_count max_iso_entries
      then record t {
        g_iso = set t.g_iso t.g_iso_count (iso_at entry);
        g_iso_count = t.g_iso_count + 1;
      }
      else t

  -- The switch over the type of an entry.
  pub enter : ℕ → ℕ → Tables → Tables
  enter bsp entry t =
      if memory entry == 0
      then enter_lapic bsp entry t
      else if memory entry == 1
      then enter_ioapic entry t
      else if memory entry == 2
      then enter_iso entry t
      else t

  -- With fuel for the loop; `bsp` is the identifier that the processor reports.
  pub parse_entries : ℕ → ℕ → ℕ → ℕ → Tables → Option Tables
  parse_entries zero bsp entry end t = none
  parse_entries (suc fuel) bsp entry end t =
      let size = memory (entry + 1) in
      let rest = parse_entries fuel bsp (entry + size) end (enter bsp entry t) in
      if ltb entry end
      then (if ltb size 2 then some t else if ltb end (entry + size) then some t else rest)
      else some t

  -- The entries lie behind 44 bytes; the length is in the header.
  pub uefi_parse_madt : ℕ → ℕ → ℕ → Tables → Option Tables
  uefi_parse_madt fuel bsp madt t = parse_entries fuel bsp (madt + 44) (madt + read32 (madt + 4)) t

pub find_gsi : ℕ → List IsoInfo → ℕ → ℕ
find_gsi zero isos irq = irq
find_gsi (suc left) [] irq = irq
find_gsi (suc left) (v ∷ vs) irq = if v.irq_source == irq then v.gsi else find_gsi left vs irq

pub uefi_find_gsi_for_irq : Tables → ℕ → ℕ
uefi_find_gsi_for_irq t irq = find_gsi t.g_iso_count t.g_iso irq
