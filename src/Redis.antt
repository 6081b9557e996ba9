-- ===== src/Redis.antt =====
-- pkg/redis: the distributed lock.
pub mod Lock
