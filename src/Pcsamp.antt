-- ===== src/Pcsamp.antt =====
-- core/collectors/pcsamp/collector.c: the collector that samples the program counter.
pub mod Collector
pub mod Run
pub mod Send
pub mod Conserve
pub mod Whole
mod Tests
