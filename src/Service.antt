-- ===== src/Service.antt =====
-- services/collector: the service between the callbacks of libmonitor and a collector.
pub mod Types
pub mod Control
pub mod Sampling
pub mod Offline
pub mod Machine
pub mod Objects
pub mod Recorded
pub mod Delivered
pub mod Dsos
pub mod Quiet
pub mod Followed
pub mod InOrder
pub mod Agree
pub mod Messages
pub mod Pcontrol
mod Tests
