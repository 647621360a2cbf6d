-- ===== src/Interrupts/Watchdog.antt =====
-- drivers/watchdog/wdsoft.c. The watchdog is the object at WatchdogUnOSKrnl; a null pointer is
-- `none`. The lines that only print are left out.
use native.Mathlib.Decide.{dec_lt}
use unos_kernel.Prelude.{
  ℕ, ◌+◌, ◌%◌, ◌^◌, ◌<◌, ◌≡◌, refl, ◌↔◌, Bool, true, false, not, ◌||◌, Option, none, some, List, [],
  ◌∷◌, arith, leb, if◌then◌else◌,
}

-- `Tag` and `Callback` are addresses.
pub record Watchdog : Type 0 where
  pub counter : ℕ
  pub timeout : ℕ
  pub active : Bool
  pub tag : ℕ
  pub callback : ℕ

-- After memset with 0.
abbrev pub zeroed : Watchdog
zeroed = record { counter = 0; timeout = 0; active = false; tag = 0; callback = 0 }

arm : Watchdog → ℕ → ℕ → ℕ → Watchdog
arm w counter timeout callback = if w.active then w else record {
  counter = counter;
  timeout = timeout;
  active = true;
  tag = 0;
  callback = callback;
}

-- The global pointer afterwards, which is what the function returns. `allocated` says whether
-- kmalloc gave memory, in case it is called.
pub init_watchdog : Bool → Option Watchdog → ℕ → ℕ → ℕ → ℕ → Option Watchdog
unfolding arm
init_watchdog allocated (some w) counter timeout tag callback =
    some (arm w counter timeout callback)
init_watchdog allocated none counter timeout tag callback =
    if allocated then some (arm zeroed counter timeout callback) else none

pub reset_watchdog : Watchdog → Watchdog
reset_watchdog w = if not w.active then w else record w { counter = 0 }

pub watchdog_count_plus : Watchdog → Watchdog
watchdog_count_plus w =
    if not w.active
    then record w { counter = 0 }
    else record w { counter = (w.counter + 1) % 2 ^ 32 }

pub disable_watchdog_while : Option Watchdog → Option Watchdog
disable_watchdog_while none = none
disable_watchdog_while (some w) = some (if w.active then record w { active = false } else w)

pub enable_watchdog_again : Option Watchdog → Option Watchdog
enable_watchdog_again none = none
enable_watchdog_again (some w) = some (if not w.active then record w { active = true } else w)

-- Whether the callback is called.
pub detect_watchdog : Watchdog → Bool
detect_watchdog w = if not w.active then false else leb w.timeout w.counter

-- What happens to a running kernel's watchdog: a timer interrupt, which counts and then tests, or
-- a reset by the code that it guards.
pub data Event : Type 0 where
  tick reset : Event

-- Whether the callback is called at any of the events.
pub fires : Watchdog → List Event → Bool
fires w [] = false
fires w (Event.tick ∷ es) = let w' = watchdog_count_plus w in detect_watchdog w' || fires w' es
fires w (Event.reset ∷ es) = fires (reset_watchdog w) es

-- From a count on, fewer than `timeout` interrupts pass before each reset and before the end.
abbrev pub Kept : ℕ → ℕ → List Event → Type 0
Kept timeout count [] = Unit {0}
Kept timeout count (Event.tick ∷ es) = (count + 1 < timeout) × Kept timeout (count + 1) es
Kept timeout count (Event.reset ∷ es) = Kept timeout 0 es

pub watchdog_count_plus-active :
    (w : Watchdog)
    → w.active ≡ true
    → w.counter + 1 < 2 ^ 32
    → watchdog_count_plus w ≡ record w { counter = w.counter + 1 }
unfolding watchdog_count_plus
watchdog_count_plus-active w on word = ground arith

reset_watchdog-active :
    (w : Watchdog) → w.active ≡ true → reset_watchdog w ≡ record w { counter = 0 }
unfolding reset_watchdog
reset_watchdog-active w on = ground arith

pub detect_watchdog-active :
    (w : Watchdog) → w.active ≡ true → detect_watchdog w ≡ leb w.timeout w.counter
unfolding detect_watchdog
detect_watchdog-active w on = ground arith

-- An active watchdog whose counter is below a 32-bit timeout stays silent exactly when the resets
-- come in time.
pub fires-iff-Kept :
    (es : List Event) (w : Watchdog)
    → w.active ≡ true
    → w.counter < w.timeout
    → w.timeout < 2 ^ 32
    → (fires w es ≡ false) ↔ Kept w.timeout w.counter es
unfolding fires
fires-iff-Kept [] w on low word = ((λ _. tt), λ _. refl)
fires-iff-Kept (Event.tick ∷ es) w on low word =
    let w' : Watchdog = record w { counter = w.counter + 1 } in
    rw (watchdog_count_plus-active w on (omega arith), detect_watchdog-active w' on)
      (elim (dec_lt (w.counter + 1) w.timeout) [
        | yes time ↦
            let test : leb w.timeout (w.counter + 1) ≡ false = ground arith in
            let iff = fires-iff-Kept es w' on time word in
            rw test ((λ h. (time, iff.0 h)), λ k. iff.1 k.1)
        | no late ↦
            let test : leb w.timeout (w.counter + 1) ≡ true = ground arith in
            rw test ((λ h. absurd (ground arith)), λ k. absurd (late k.0))
      ])
fires-iff-Kept (Event.reset ∷ es) w on low word =
    rw (reset_watchdog-active w on)
      (fires-iff-Kept es (record w { counter = 0 }) on (omega arith) word)

-- A watchdog that is switched off neither counts nor fires, and starts from 0 when it is switched
-- on again after an interrupt.
pub disabled_silent : (es : List Event) (w : Watchdog) → w.active ≡ false → fires w es ≡ false
unfolding fires watchdog_count_plus reset_watchdog detect_watchdog
disabled_silent [] w off = refl
disabled_silent (Event.tick ∷ es) w off =
    ground (arith, disabled_silent es (record w { counter = 0 }))
disabled_silent (Event.reset ∷ es) w off = ground (arith, disabled_silent es w)
