-- ===== src/PairClient.antt =====
-- clientexp2.c: the client with a thread that keeps one connection and a thread that opens many.
pub mod State
pub mod Batches
mod Tests
