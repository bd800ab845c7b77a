-- ===== src/SequenceServer.antt =====
-- exp1/server_final.c, exp1/server7.c and exp1/server8 copy.c: the servers that look for gaps in the
-- packet numbers.
pub mod Tracker
pub mod Gaps
pub mod Text
pub mod RoundTrip
pub mod Server
pub mod Memory
pub mod Ending
pub mod Main
pub mod Streams
pub mod Arrivals
mod Tests
