-- ===== src/Idempotency.antt =====
-- The idempotency layer's port and its Redis adapter.
pub mod Store
pub mod RedisStore
