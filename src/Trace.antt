-- ===== src/Trace.antt =====
-- The tracing collectors: core/collectors/io/collector.c, and mem, mpi and pthreads beside it.
pub mod Types
pub mod Search
pub mod Buffer
pub mod Table
pub mod Walk
pub mod Found
pub mod Append
pub mod Matched
pub mod Held
pub mod Store
pub mod Depth
pub mod Run
pub mod Interface
pub mod Marks
pub mod Laws
pub mod Serve
pub mod Whole
pub mod Nested
pub mod Paths
pub mod Full
pub mod Io
pub mod Mem
pub mod Mpi
pub mod Pthreads
pub mod Wrappers
mod Tests
