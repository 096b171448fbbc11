-- ===== src/Lib.antt =====
-- HOWK, a webhook delivery service on Kafka and Redis: its core as functions and step relations.
--
-- A webhook arrives on the pending topic. A worker takes it through the idempotency check, the
-- circuit breaker of its endpoint, two concurrency gates, an optional script and one HTTP request,
-- and then schedules a retry in Redis, publishes a dead letter, or is done. The scheduler moves
-- the retries that are due back to the pending topic. If Redis is lost, the reconciler rebuilds it
-- from the snapshots that the workers publish on the state topic. Webhooks come from the API, as
-- requests or from transformer scripts that a request runs; the Lua scripts that change a webhook
-- live on a compacted topic, which each process replays into its loader and mirrors in Redis.
--
-- Which file models which part:
--   Prelude     Go's tests, 64-bit integers, strings, strconv and strings.Split
--   Domain      internal/domain/types.go; Domain/Headers: RedactHeaders and CloneForDLQ,
--               Domain/Matching: MatchesDomain, Domain/Entries: maps of strings
--   Retry       internal/retry/strategy.go
--   Redis       how a call to Redis may end, expiry, maps and the sorted set
--   Circuit     internal/hotstate/redis.go, the circuit breaker; Circuit/Workers: several workers
--               whose steps interleave
--   HotState    internal/hotstate/redis.go, all else but the circuit breaker; HotState/Stats: GetStats,
--               HotState/ScriptCache: the mirror of the scripts
--   Limiter     internal/delivery/limiter.go
--   Kafka       internal/broker/kafka.go, the tracking of offsets; Kafka/Dispatch: the goroutines of
--               a partition as steps
--   Effects     the outside world, actions on it, and the publisher of internal/broker/kafka.go
--   Worker      internal/worker/worker.go and slow.go; Worker/Record, Worker/Attempt,
--               Worker/Scripts, Worker/DeadLetters: its helpers and the ends of an attempt;
--               Worker/Transform: applyTransformation of internal/script/engine.go
--   Scheduler   internal/scheduler/scheduler.go
--   Reconciler  internal/reconciler/reconciler.go; HotState/Recovery: what it does to Redis,
--               HotState/Lock: its lock
--   Json        the values of encoding/json
--   Script      internal/script: domain.go, loader.go, publisher.go, consumer.go and EnsureScript
--   Delivery    internal/delivery/overrides.go; Delivery/Client: client.go, Delivery/NullRoute:
--               nullroute.go
--   Transformer internal/transformer/registry.go; Transformer/Auth: auth.go, Transformer/Engine:
--               engine.go and errors.go
--   Api         internal/api/server.go and h_webhook.go; Api/Incoming: h_incoming.go, Api/Scripts:
--               h_script.go
--   DevMode     internal/devmode/broker.go
--   Http        internal/script/modules/http.go
--   Kv          internal/script/modules/kv.go
--
-- State and operations. A method becomes a function of the same name in snake case. An operation
-- on Redis takes the time and the ways in which its calls end, and gives its result (`none` for an
-- error) and the new store. The worker and the scheduler are actions on a world (the store, the
-- topics, the requests sent) in an environment that answers each call by its number; the code
-- outside this development (HTTP, Lua, JSON, URLs) is a field of it or an argument of the definition.
-- A call may succeed, fail with nothing done, or be carried out with its reply lost.
--
-- Bounds and fuel. `advance`, the loop of MarkCompleted, runs on the number of completed offsets,
-- and each round deletes one. `hours`, the loop of GetStats, runs on the number of hours up to the
-- end of the range, and each round goes on by one. `follow` makes at most the ten requests that
-- net/http allows. A Lua script is a finite tree of calls. int and
-- int64 wrap at 64 bits where the code increments them; counters of Redis and failure counts are
-- natural numbers. Times are nanoseconds, TTLs whole seconds, and the floats of the retry jitter
-- exact fractions.
--
-- Not modelled: the set-up of Kafka's clients and the waiting of goroutines for each other at the end
-- of a session, the Lua machine and the conversion of its values, the crypto and log modules,
-- the endpoints for statistics, health and dry runs, the rate limit of the slow lane, configuration
-- loading, logs and metrics: third-party calls, input and output, or values passed on.
pub mod Prelude
pub mod Domain
pub mod Retry
pub mod Redis
pub mod Circuit
pub mod HotState
pub mod Limiter
pub mod Kafka
pub mod Effects
pub mod Worker
pub mod Scheduler
pub mod Reconciler
pub mod Json
pub mod Script
pub mod Delivery
pub mod Transformer
pub mod Api
pub mod DevMode
pub mod Http
pub mod Kv
