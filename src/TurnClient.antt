-- ===== src/TurnClient.antt =====
-- exp1/client_final.c, exp1/client9copy.c and client_op.c: the clients whose threads send numbered packets in turn.
pub mod State
pub mod Turn
pub mod Order
pub mod Unique
pub mod Worker
pub mod Life
pub mod Progress
pub mod Delivery
pub mod Message
pub mod Arrivals
pub mod Printed
mod Tests
mod LifeTests
