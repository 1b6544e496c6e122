-- ===== src/Tests.antt =====
-- Runs of the definitions at concrete inputs, and the theorems at such inputs.
pub mod Kernel
mod Disk
mod Tx
mod TxRace
mod Files
mod Events
mod Pump
pub mod Recorder
mod Loop
mod Options
mod Contention
mod Race
mod Analyzer
mod Blame
mod Runs
