-- ===== src/Timer.antt =====
-- services/src/timer/TimerHandler.c: the timers of the threads, and the signal action that they share.
pub mod Handler
pub mod Threads
pub mod Exact
pub mod Restart
mod Tests
