-- ===== src/Tests/Interrupts.antt =====
-- The timer interrupt at small inputs.
use unos_kernel.Prelude.{◌+◌, ◌*◌, ◌≡◌, ◌↔◌, refl, true, false, List, [], ◌∷◌, arith}
use unos_kernel.Interrupts.Clock.{Clock, IsClock}
use unos_kernel.Interrupts.Handler.{Machine, irqs, irqs-IsClock}
use unos_kernel.Interrupts.Watchdog.{Watchdog, Event, fires, Kept, fires-iff-Kept, disabled_silent}

abbrev clock : Clock
clock = record { tick = 5999; second = 59; minute = 0 }

clock-IsClock : IsClock clock
clock-IsClock = omega arith

abbrev watchdog : Watchdog
watchdog = record { counter = 0; timeout = 2; active = true; tag = 0; callback = 1 }

abbrev machine : Machine
machine = record { clock = clock; watchdog = watchdog; barked = false }

abbrev in_time : List Event
in_time = Event.tick ∷ Event.reset ∷ Event.tick ∷ []

fires-iff-Kept_example : (fires watchdog in_time ≡ false) ↔ Kept 2 0 in_time
fires-iff-Kept_example = fires-iff-Kept in_time watchdog refl (omega arith) (omega arith)

irqs-IsClock_example : IsClock (irqs 3 machine).clock × ((irqs 3 machine).clock.tick ≡ 5999 + 2 * 3)
irqs-IsClock_example = irqs-IsClock 3 machine clock-IsClock (omega arith)

disabled_silent_example : fires (record watchdog { active = false }) in_time ≡ false
disabled_silent_example = disabled_silent in_time (record watchdog { active = false }) refl
