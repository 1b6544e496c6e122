-- ===== src/Cases.antt =====
-- The workloads under cases/.
pub mod Contention
pub mod Program
pub mod Waiter
