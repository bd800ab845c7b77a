-- ===== src/Sender.antt =====
-- per.c: the client that keeps one connection and sends until its time is over.
pub mod State
pub mod Packets
pub mod Wire
pub mod AtServer
pub mod Swapped
pub mod Report
pub mod Main
mod Tests
