-- ===== src/RoundClient.antt =====
-- exp1/client8.c: the client whose threads send in rounds and write each packet to a log.
pub mod State
pub mod Rounds
pub mod Worker
pub mod Life
mod Tests
