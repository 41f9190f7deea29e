-- ===== src/Hwcsamp.antt =====
-- core/collectors/hwcsamp/collector.c: the collector that samples the program counter together with
-- the hardware counters.
pub mod Papi
pub mod Collector
pub mod Start
pub mod Run
pub mod Send
pub mod Values
pub mod Tick
pub mod Conserve
pub mod Whole
mod Tests
