-- ===== src/Tus.antt =====
-- Project2/tus.c, the cooperative threads library.
pub mod Queue
pub mod State
pub mod Yield
pub mod Api
pub mod Inv
pub mod Run
pub mod Reach
mod Tests
