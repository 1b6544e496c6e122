-- ===== src/Tracer.antt =====
-- The kernel module, module/trace_wperf_events.c and module/trace_wperf_events.h.
pub mod Text
pub mod Kernel
pub mod Disk
pub mod Tx
pub mod Files
pub mod Events
pub mod Softirq
pub mod Init
