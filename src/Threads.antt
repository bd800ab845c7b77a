-- ===== src/Threads.antt =====
-- The life of the threads that the clients start and join: exp1/client_final.c, exp1/client9copy.c,
-- client_op.c and exp1/client8.c.
pub mod State
pub mod Stages
pub mod Steps
