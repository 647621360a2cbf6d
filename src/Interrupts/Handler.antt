-- ===== src/Interrupts/Handler.antt =====
-- irq_handler_c of kernel/idt/isr_handler_c.c: the clock, then the watchdog. The EOI write to the
-- local APIC is left out.
use native.Mathlib.Decide.{dec_lt}
use unos_kernel.Prelude.{
  ℕ, zero, suc, ◌+◌, ◌*◌, ◌^◌, ◌<◌, ◌≡◌, ◌∙◌, Bool, true, false, ◌||◌, ap, ap₂, leb, arith,
}
use unos_kernel.Interrupts.Clock.{Clock, scale_factor, advance_by, IsClock, advance_by-IsClock}
use unos_kernel.Interrupts.Watchdog.{
  Watchdog, watchdog_count_plus, detect_watchdog, watchdog_count_plus-active,
  detect_watchdog-active,
}

pub record Machine : Type 0 where
  pub clock : Clock
  pub watchdog : Watchdog
  -- whether the watchdog's callback has been called
  pub barked : Bool

pub irq_handler : Machine → Machine
irq_handler m =
    let w = watchdog_count_plus m.watchdog in
    record {
      clock = advance_by scale_factor m.clock;
      watchdog = w;
      barked = m.barked || detect_watchdog w;
    }

pub irqs : ℕ → Machine → Machine
irqs zero m = m
irqs (suc n) m = irqs n (irq_handler m)

-- After `n` interrupts since a right clock, the clock is right and 2 n ticks ahead.
pub irqs-IsClock :
    (n : ℕ) (m : Machine)
    → IsClock m.clock
    → m.clock.tick + 2 * n < 2 ^ 38
    → IsClock (irqs n m).clock × ((irqs n m).clock.tick ≡ m.clock.tick + 2 * n)
unfolding irqs irq_handler
irqs-IsClock zero m v h = (v, omega arith)
irqs-IsClock (suc n) m v h =
    let (v', two) = advance_by-IsClock 2 v (omega arith) in
    let (v'', more) = irqs-IsClock n (irq_handler m) v' (omega (arith, two)) in
    (v'', omega (arith, two, more))

irqs-barked_stays : (n : ℕ) (m : Machine) → m.barked ≡ true → (irqs n m).barked ≡ true
unfolding irqs irq_handler
irqs-barked_stays zero m h = h
irqs-barked_stays (suc n) m h = irqs-barked_stays n (irq_handler m) (ground arith)

irq_handler-active :
    (m : Machine)
    → m.watchdog.active ≡ true
    → m.watchdog.counter + 1 < 2 ^ 32
    → m.barked ≡ false
    → ((irq_handler m).watchdog ≡ record (m.watchdog) { counter = m.watchdog.counter + 1 })
      × ((irq_handler m).barked ≡ leb m.watchdog.timeout (m.watchdog.counter + 1))
unfolding irq_handler
irq_handler-active m on word quiet =
    let counted = watchdog_count_plus-active m.watchdog on word in
    (
      counted,
      rw (quiet, counted)
          (detect_watchdog-active (record (m.watchdog) { counter = m.watchdog.counter + 1 }) on),
    )

-- An active watchdog that is not reset calls back within `n` interrupts exactly if its counter
-- reaches the timeout within them.
pub irqs-barked :
    (n : ℕ) (m : Machine)
    → m.watchdog.active ≡ true
    → m.watchdog.counter < m.watchdog.timeout
    → m.watchdog.timeout < 2 ^ 32
    → m.barked ≡ false
    → (irqs n m).barked ≡ leb m.watchdog.timeout (m.watchdog.counter + n)
unfolding irqs
irqs-barked zero m on low word quiet = quiet ∙ ground arith
irqs-barked (suc n) m on low word quiet =
    let (counted, heard) = irq_handler-active m on (omega arith) quiet in
    elim (dec_lt (m.watchdog.counter + 1) m.watchdog.timeout) [
      | yes time ↦
          let same_timeout = ap (λ w. w.timeout) counted in
          let same_counter = ap (λ w. w.counter) counted in
          irqs-barked n (irq_handler m) (ap (λ w. w.active) counted ∙ on)
            (omega (arith, same_timeout, same_counter)) (omega (arith, same_timeout))
            (heard ∙ ground arith)
          ∙ ap₂ leb same_timeout (omega (arith, same_counter))
      | no late ↦ irqs-barked_stays n (irq_handler m) (heard ∙ ground arith) ∙ ground arith
    ]
