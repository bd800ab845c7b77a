-- ===== src/LogServer.antt =====
-- exp1/server6.c: the server that writes each line it receives to a log, and keeps a partial line.
pub mod State
pub mod Chunks
pub mod Server
pub mod Streams
mod Tests
