-- ===== src/Usertime.antt =====
-- core/collectors/usertime/collector.c: the collector that samples call stacks.
pub mod Types
pub mod Collector
pub mod Buffer
pub mod Counts
pub mod Run
pub mod Conserve
pub mod Place
mod Tests
