-- ===== src/Recorder.antt =====
-- The recorder of user space, recorder/*.c.
pub mod Pump
pub mod Paths
pub mod Debugfs
pub mod Workers
pub mod Expiry
pub mod Options
pub mod Run
pub mod Loop
pub mod Program
