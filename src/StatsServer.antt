-- ===== src/StatsServer.antt =====
-- server_epx3.c: the server of the persistent and the non-persistent client. One file models each
-- part of its state and loop; the files below them hold the proofs.
pub mod State
pub mod Setup
pub mod Queue
pub mod Session
pub mod Accept
pub mod Receive
pub mod Close
pub mod Loop
pub mod Shutdown
pub mod Runs
pub mod Graded
pub mod Bounds
pub mod Clients
pub mod Pairs
pub mod Bytes
pub mod Waiting
pub mod Counts
pub mod Stops
pub mod Stale
pub mod Faults
pub mod Report
pub mod Main
pub mod Summaries
pub mod Tests
