-- ===== src/BatchSender.antt =====
-- non.c: the client that opens one connection after the other and sends a number of messages on each.
pub mod State
pub mod Batches
pub mod Report
pub mod Main
pub mod Defaults
mod Tests
