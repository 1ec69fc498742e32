-- ===== src/Http/Idempotency/Laws.antt =====
-- The middleware against a lawful store.
pub mod Guards
pub mod Captured
pub mod Slots
pub mod Replay
pub mod Separate
pub mod Conflicts
pub mod Recorded
pub mod Late
pub mod Lost
