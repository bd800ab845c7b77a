-- ===== src/EchoServer.antt =====
-- exp1/server.c: the server that appends what it reads to one buffer, which a thread prints.
pub mod State
pub mod Buffer
pub mod Main
mod Tests
