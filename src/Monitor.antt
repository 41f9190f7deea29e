-- ===== src/Monitor.antt =====
-- services/src/monitor/Monitor.c, the callbacks that libmonitor makes into the collection services.
pub mod Types
pub mod Life
pub mod Objects
pub mod Parallel
pub mod Step
pub mod Report
pub mod Finished
pub mod Mpi
pub mod Loaded
pub mod Stale
pub mod Fork
mod Tests
