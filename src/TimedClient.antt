-- ===== src/TimedClient.antt =====
-- clientexp2_time.c: the client whose two threads send in turn until their time is over.
pub mod State
pub mod Turns
pub mod Deadlock
pub mod Report
mod Tests
