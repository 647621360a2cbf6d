-- ===== src/Interrupts/Clock.antt =====
-- `tick`, `second` and `minute` of kernel/idt, and the loop of irq_handler_c that moves them.
use unos_kernel.Prelude.{
  ℕ, zero, suc, ◌+◌, ◌*◌, ◌/◌, ◌%◌, ◌^◌, ◌<◌, ◌≡◌, arith, ◌==◌, if◌then◌else◌,
}

-- A uint64_t, a uint8_t and a uint32_t.
pub record Clock : Type 0 where
  pub tick : ℕ
  pub second : ℕ
  pub minute : ℕ

abbrev pub scale_factor : ℕ
scale_factor = 2

-- `second++`, and the carry into `minute`
pub next_second : Clock → Clock
next_second c =
    let second' = (c.second + 1) % 2 ^ 8 in
    if second' == 60
    then record c { second = 0; minute = (c.minute + 1) % 2 ^ 32 }
    else record c { second = second' }

-- One round of the loop.
pub advance : Clock → Clock
unfolding next_second
advance c =
    let c' = record c { tick = (c.tick + 1) % 2 ^ 64 } in
    if c'.tick % 100 == 0 then next_second c' else c'

pub advance_by : ℕ → Clock → Clock
advance_by zero c = c
advance_by (suc n) c = advance_by n (advance c)

-- The clock shows the hundredths of the tick.
pub record IsClock (c : Clock) : Type 0 where
  pub seconds : c.minute * 60 + c.second ≡ c.tick / 100
  pub carried : c.second < 60

advance-IsClock :
    {c : Clock}
    → IsClock c
    → c.tick + 1 < 2 ^ 38
    → IsClock (advance c) × ((advance c).tick ≡ c.tick + 1)
unfolding advance
advance-IsClock {c} v h = ground arith

-- Minutes and seconds count one second for every 100 ticks, until the minute counter wraps.
pub advance_by-IsClock :
    (n : ℕ) {c : Clock}
    → IsClock c
    → c.tick + n < 2 ^ 38
    → IsClock (advance_by n c) × ((advance_by n c).tick ≡ c.tick + n)
unfolding advance_by
advance_by-IsClock zero v h = (v, omega arith)
advance_by-IsClock (suc n) {c} v h =
    let (v', one) = advance-IsClock v (omega arith) in
    let (v'', more) = advance_by-IsClock n v' (omega (arith, one)) in
    (v'', omega (arith, one, more))
