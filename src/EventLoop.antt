-- ===== src/EventLoop.antt =====
-- The event loop and the table of connections that exp1/server6.c, exp1/server7.c, exp1/server8 copy.c
-- and exp1/server_final.c have in common, over the program's own handling of data.
pub mod State
pub mod Memory
pub mod Arrivals
pub mod Isolation
pub mod Start
