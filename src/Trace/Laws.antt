-- ===== src/Trace/Laws.antt =====
-- The four tracing collectors keep the laws: core/collectors/io, mpi, mem and pthreads.
pub mod Io
pub mod Mpi
pub mod Mem
pub mod Pthreads
