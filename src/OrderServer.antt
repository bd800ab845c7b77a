-- ===== src/OrderServer.antt =====
-- serverexp2.c: the server that counts in which order two connections are heard.
pub mod State
pub mod Setup
pub mod Loop
pub mod Report
pub mod Main
pub mod Runs
pub mod Order
pub mod Clients
pub mod Bytes
pub mod Tests
