-- ===== src/Session.antt =====
-- Unlocking and locking: the auto-lock preference, the timers of an open session, and the token that
-- lets a reload continue it.
pub mod LockPolicy
pub mod AutoLock
pub mod Resume
pub mod Lifecycle
mod Tests
