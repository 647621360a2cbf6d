-- ===== src/Interrupts.antt =====
-- The timer interrupt: irq_handler_c of kernel/idt/isr_handler_c.c, with the clock that it keeps,
-- and the software watchdog of drivers/watchdog/wdsoft.c that it counts up.
pub mod Clock
pub mod Handler
pub mod Watchdog
