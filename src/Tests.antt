-- ===== src/Tests.antt =====
-- Runs of the models at small inputs, and the theorems at inputs that meet their hypotheses.
mod Acpi
mod Console
mod Directory
mod FileSystem
mod Interrupts
mod Memory
mod Paging
mod Scheduler
mod Serial
mod Storage
mod Strings
mod Write
