-- ===== src/Db.antt =====
-- pkg/db: the queue and the batches of the asynchronous database access, and the write-behind cache.
pub mod Async
pub mod Cache
