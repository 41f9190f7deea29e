-- ===== src/Hwc.antt =====
-- core/collectors/hwc/collector.c: the collector that samples the program counter when a hardware
-- counter overflows.
pub mod Collector
pub mod Run
pub mod Conserve
pub mod Whole
mod Tests
