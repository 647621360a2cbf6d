-- ===== src/Acpi/Apic.antt =====
-- acpi/madt.c: the redirection table of the IOAPIC and the timer of the local APIC. A register holds
-- what is written to it; the values that the current count of the timer has when it is read again
-- and again are a function of the number of the read.
use unos_kernel.Prelude.{
  ℕ, zero, suc, ◌+◌, ◌-◌, ◌*◌, ◌/◌, ◌%◌, ◌^◌, ◌≤◌, ◌<◌, ◌≡◌, ◌≢◌, refl, ap, inl, inr, Option, some,
  none, ◌==◌, if◌then◌else◌, ◌>>=◌, Bool-cases, arith, bit_and, bit_or,
}
use unos_kernel.Acpi.{Tables, uefi_find_gsi_for_irq}

-- What the register behind each index holds.
pub ioapic_write : ℕ → ℕ → (ℕ → ℕ) → ℕ → ℕ
ioapic_write reg value regs r = if r == reg then value else regs r

-- The zeros that the source adds to the low word by `|=` change nothing.
pub ioapic_redirect_irq : Tables → ℕ → ℕ → ℕ → (ℕ → ℕ) → ℕ → ℕ
ioapic_redirect_irq t irq vector lapic_id regs =
    let index = uefi_find_gsi_for_irq t irq * 2 % 2 ^ 32 in
    let high = ioapic_write ((0x10 + index + 1) % 2 ^ 32) (lapic_id * 2 ^ 24) regs in
    ioapic_write ((0x10 + index) % 2 ^ 32) (bit_and vector 0xFFFEFFFF) high

pub init_ioapic : Tables → (ℕ → ℕ) → ℕ → ℕ
init_ioapic t regs = ioapic_redirect_irq t 12 0x2C 0 (ioapic_redirect_irq t 1 0x21 0 regs)

pub record Lapic : Type 0 where
  pub divide : ℕ
  pub lvt_timer : ℕ
  pub initial_count : ℕ

-- The loop of Wait10ms from read `i` on: the number of the reads that are made.
pub wait_zero : ℕ → (ℕ → ℕ) → ℕ → Option ℕ
wait_zero zero current i = none
wait_zero (suc fuel) current i =
    let rest = wait_zero fuel current (i + 1) in if current i == 0 then some (i + 1) else rest

pub wait_10ms : ℕ → (ℕ → ℕ) → Option (Lapic × ℕ)
wait_10ms fuel current = do
  n ← wait_zero fuel current 0
  some (record { divide = 0b1010; lvt_timer = bit_or 0x31 (2 ^ 16); initial_count = 120000 }, n)

-- The registers that it writes first are overwritten by Wait10ms, before the count is read.
pub calibrate_lapic_bus_hz : ℕ → (ℕ → ℕ) → Option (Lapic × ℕ)
calibrate_lapic_bus_hz fuel current = do
  r ← wait_10ms fuel current
  some (r.0, (0xFFFFFFFF - current r.1) * 100 % 2 ^ 32)

pub setup_lapic_timer : ℕ → Lapic
setup_lapic_timer bus_hz = record {
  divide = 0b1011;
  lvt_timer = bit_or 0x20 (2 ^ 17);
  initial_count = bus_hz / 100;
}

wait_zero-first :
    (fuel : ℕ) (current : ℕ → ℕ) (i n : ℕ)
    → i ≤ n
    → n < i + fuel
    → current n ≡ 0
    → (k : ℕ) × (wait_zero fuel current i ≡ some (k + 1)) × (k ≤ n) × (current k ≡ 0)
unfolding wait_zero
wait_zero-first zero current i n le lt h = absurd (omega arith)
wait_zero-first (suc fuel) current i n le lt h = elim (Bool-cases (current i == 0)) [
  | inl a ↦ (i, rw a refl, le, ground arith)
  | inr a ↦
      let later : i ≢ n = λ e. let same : current i ≡ current n = ap current e in ground arith in
      let k = wait_zero-first fuel current (i + 1) n (omega arith) (omega arith) h in
      (k.0, rw a k.1, k.2, k.3)
]

-- When the count of the timer reaches 0 and stays there, as it does after one shot, and the fuel is
-- enough for the read that shows it, CalibrateLAPICBusHz ends with the frequency 4294967196 and
-- SetupLapicTimer with it starts from the count 42949671, whatever the frequency of the bus is.
pub calibrate_lapic_bus_hz_lem :
    (fuel : ℕ) (current : ℕ → ℕ) (n : ℕ)
    → n < fuel
    → current n ≡ 0
    → ((i j : ℕ) → i ≤ j → current i ≡ 0 → current j ≡ 0)
    → (r : Lapic × ℕ) × (calibrate_lapic_bus_hz fuel current ≡ some r)
      × (r.1 ≡ 4294967196)
      × ((setup_lapic_timer r.1).initial_count ≡ 42949671)
unfolding calibrate_lapic_bus_hz wait_10ms setup_lapic_timer
calibrate_lapic_bus_hz_lem fuel current n lt h stays =
    let first = wait_zero-first fuel current 0 n (omega arith) (omega arith) h in
    let at_zero : current (first.0 + 1) ≡ 0 = stays first.0 (first.0 + 1) (omega arith) first.3 in
    rw (first.1, at_zero)
      (
        (
          record { divide = 0b1010; lvt_timer = bit_or 0x31 (2 ^ 16); initial_count = 120000 },
          4294967196,
        ),
        refl,
        refl,
        refl,
      )

-- When the lines 1 and 12 go to different interrupts below 120, InitIOAPIC sends them to the
-- vectors 0x21 and 0x2C of the processor 0, and leaves all other entries of the redirection table.
pub init_ioapic_lem :
    (t : Tables) (regs : ℕ → ℕ)
    → uefi_find_gsi_for_irq t 1 < 120
    → uefi_find_gsi_for_irq t 12 < 120
    → uefi_find_gsi_for_irq t 1 ≢ uefi_find_gsi_for_irq t 12
    → (init_ioapic t regs (0x10 + uefi_find_gsi_for_irq t 1 * 2) ≡ 0x21)
      × (init_ioapic t regs (0x11 + uefi_find_gsi_for_irq t 1 * 2) ≡ 0)
      × (init_ioapic t regs (0x10 + uefi_find_gsi_for_irq t 12 * 2) ≡ 0x2C)
      × (init_ioapic t regs (0x11 + uefi_find_gsi_for_irq t 12 * 2) ≡ 0)
      × ((r : ℕ)
          → r / 2 ≢ 8 + uefi_find_gsi_for_irq t 1
          → r / 2 ≢ 8 + uefi_find_gsi_for_irq t 12
          → init_ioapic t regs r ≡ regs r)
unfolding init_ioapic ioapic_redirect_irq ioapic_write
init_ioapic_lem t regs a b ne =
    let x = uefi_find_gsi_for_irq t 1 in
    let y = uefi_find_gsi_for_irq t 12 in
    let ex : x * 2 % 2 ^ 32 ≡ x * 2 = omega arith in
    let ey : y * 2 % 2 ^ 32 ≡ y * 2 = omega arith in
    (ground arith, ground arith, ground arith, ground arith, λ r h k. ground arith)
