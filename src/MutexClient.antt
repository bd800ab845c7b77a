-- ===== src/MutexClient.antt =====
-- exp1/client7.c: the client whose two threads send under a mutex and log what they send.
pub mod State
pub mod Packets
mod Tests
