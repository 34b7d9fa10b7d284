-- ===== src/Rsm.antt =====
-- Project3/rsm.c, the resource manager.
pub mod Reduce
pub mod State
pub mod Bank
pub mod Process
pub mod Api
pub mod Request
pub mod Init
pub mod Inv
pub mod Reach
pub mod Frame
pub mod Bounds
pub mod Deadlock
pub mod Answers
pub mod Avoid
mod Tests
