-- ===== src/Lib.antt =====
-- The core of mmo-server, a game server framework in Go, and proofs about it.
--
-- A client's message comes in over a session of the gateway. The message codec and the router of
-- pkg/protocol carry it to an instance of a service, which a discovery table and a load balancer
-- choose; pkg/rpc has a registry and selectors of its own for calls between services. What is stored
-- goes through the write-behind cache and the asynchronous database access of pkg/db. The players
-- of a scene are kept by pkg/sync over the grid of pkg/aoi.
--
-- Protocol, for pkg/protocol:
--   Protocol.Message     message.go: `Message`, `Encode` as `encode`, `Decode` as `decode`, and the
--                        flags. A byte is a number; the offsets are the source's.
--   Protocol.Discovery   router.go: `InMemoryServiceDiscovery`, with the calls of its watchers as
--                        values.
--   Protocol.Balancer    router.go: `RoundRobinLoadBalancer` and `WeightedLoadBalancer`, with their
--                        counters.
--   Protocol.Router      router.go: `Route`, `RouteAsync` and `Broadcast` over a discovery and a
--                        balancer. Whether the timeout comes first is an argument.
--   Protocol.Converter   converter.go: `ToInternal` and `FromInternal` for every kind of connection
--                        and form; Protocol.Converter.Types has the processors and
--                        `MessageRegistry`.
--   Protocol.Handlers    handler_registry.go: `HandlerRegistry`.
-- Rpc, for pkg/rpc/load_balancer.go:
--   Rpc.Registry         `InMemoryRegistry`: `Register`, `Deregister`, `GetInstances`, `cleanup` and
--                        the watchers' channels.
--   Rpc.Selector         the three selectors; the draw of math/rand is an argument.
--   Rpc.Balancer         `LoadBalancer.GetInstance` over the registry.
-- Gateway, for pkg/gateway:
--   Gateway.Session      session.go: `Session` and its framing. The connections are handles and what
--                        they do is the record `Network`. Nothing opens the stream that the QUIC
--                        branches use.
--   Gateway.Manager      session.go: `SessionManager`. Sessions are shared by pointer, so a heap
--                        stands beside the map.
--   Gateway.Index        handler.go: the sessions of `GatewayHandler` by ID and by user.
--   Gateway.Messages     handler.go: `handleMessage`, from a session through the converter and the
--                        router and back, and a turn of the message loop.
-- Aoi, for pkg/aoi/aoi.go: `AOIManager` with its cells and player counts, and Aoi.Query with the
--   queries over the cells around a position. The arithmetic of float32 is the record `Float`.
-- Player, for pkg/sync/player_state.go: `PlayerStateManager` over the grid, with a heap of players
--   that its maps and the grid point into; Player.Service has the position and chat services.
-- Db, for pkg/db:
--   Db.Async             async.go: `asyncDB` with its queue, batches, timers, retries and counters.
--                        What the database answers is an argument, and a worker's sleep before a
--                        retry ends in a step of its own.
--   Db.Cache             cache_sync.go: `cacheSync`, with `Get` here, `Flush` and the statements in
--                        Db.Cache.Flush, and `Set`, `Delete` and `GetMulti` in Db.Cache.Many. A
--                        flush runs as a whole between the other calls of a sequence. The
--                        Redis cache and the database are the record `Storage`.
-- Redis.Lock, for pkg/redis/lock.go: `RedisLock`. The server is the record `Server`, and the laws
--   `IsServer` say what its commands do and what becomes of its keys as time passes.
-- Security, for pkg/security/crypto.go: `CryptoManager`; Security.Connection is the secure
--   connection of pkg/gateway/secure_connection.go over it. The ciphers are the record `Cipher`,
--   with the law `IsCipher` that what is sealed opens.
-- Common holds what these share: byte sequences, Go's maps as association lists, Go's int as a
-- 64-bit pattern, and the names of the libraries.
--
-- What runs under a lock is taken as one step; Db.Async.Steps and Player.Steps put such steps in any
-- order. A Go map is an association list and a range over it goes in that list's order, which Go
-- leaves open. Go's int keeps its wrap-around where indices, weights, cells and clocks are computed
-- (Common.Ints); statistics are unbounded. Nearly all loops are structural recursion. Three take a
-- number of turns: `digits` of Common.Decimal gets one more than the number, which is enough for any
-- numeral; the loops over cells of Aoi.Query get as many as they make, unless they run up to the
-- greatest int; and the batches of Db.Cache.Flush get their count, which covers all entries. `Acquire`
-- of a lock goes on as long as tokens are given.
--
-- Not modelled: the servers, sockets and goroutines that call these operations; gRPC, the rest of the
-- Redis client, the database driver, metrics and configuration; the JSON forms of messages and
-- sessions beyond the converter. Of the modelled files, what prints, measures time or averages is
-- left out, and so are `WaitForCompletion` and the stop of the workers in async.go, `GetClient` in
-- load_balancer.go, the times of the ticks in lock.go, and the start, the stop and the internal
-- handlers in handler.go.
pub mod Aoi
pub mod Common
pub mod Db
pub mod Gateway
pub mod Player
pub mod Protocol
pub mod Redis
pub mod Rpc
pub mod Security
