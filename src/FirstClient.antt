-- ===== src/FirstClient.antt =====
-- exp1/client.c: the client that sends sixteen packets on four connections.
pub mod State
pub mod Packets
mod Tests
