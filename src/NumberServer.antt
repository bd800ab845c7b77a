-- ===== src/NumberServer.antt =====
-- exp1/server8 copy.c and exp1/client9copy.c: the server and the client whose packets are bare numbers.
pub mod Server
pub mod Streams
pub mod Main
mod Tests
