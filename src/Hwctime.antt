-- ===== src/Hwctime.antt =====
-- core/collectors/hwctime/collector.c: the collector that samples the stack when a hardware counter
-- overflows.
pub mod Collector
pub mod Run
pub mod Whole
mod Tests
