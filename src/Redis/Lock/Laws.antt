-- ===== src/Redis/Lock/Laws.antt =====
-- Who holds a lock of pkg/redis/lock.go, as long as it does not expire.
use mmo_server.Common.{ℕ, some, Str}
use mmo_server.Redis.Lock.{RedisLock, Server, try_acquire}
use mmo_server.Redis.Lock.Holding.{IsServer}

module _ {S : Type 0} (server : Server S) (i : IsServer server) where
  -- The server once a lock has been asked for.
  abbrev pub asked : RedisLock → Str → Str → ℕ → S → S
  asked l key token timeout s = (try_acquire server l (some token) key timeout s).1
