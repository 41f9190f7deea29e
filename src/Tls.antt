-- ===== src/Tls.antt =====
-- services/src/common/TLS.c: thread-local storage by key, in a hash table of 32 buckets for each
-- thread, or one for the process where it has no threads.
pub mod Map
pub mod Invariant
pub mod Laws
pub mod Store
pub mod Threads
mod Tests
