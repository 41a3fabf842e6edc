-- ===== src/Signals.antt =====
-- The signal programs.
pub mod State
pub mod System
pub mod Jump
pub mod Suspend
pub mod Sleep
pub mod Abort
mod Examples
