-- ===== src/Sync.antt =====
-- frontend/src/lib/sync.js: the local database and the relay kept in step.
pub mod Backfill
pub mod Sweep
pub mod Latch
pub mod Conversations
pub mod Inbox
pub mod Outbox
pub mod Receipts
mod Fixtures
mod Tests
