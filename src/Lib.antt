-- ===== src/Lib.antt =====
-- gkit-go is a kit of Go packages for services. Most of the packages modelled here are independent
-- of each other. queue, eventstore and outbox keep rows in Postgres and run inside transactions of
-- pkg/store; lock, feature and rediscache keep their state in Redis. A service composes the
-- packages by calls: a retry around a cache and a circuit breaker (Server), orders that go over the
-- event bus (Server/Orders), collectors of metrics (Metrics), middlewares around a handler, a saga
-- of steps, a shutdown of hooks.
--
-- Files and what they model, by the paths of the repository:
--
--   Prelude         what the modules share: Boolean tests, lists by native numbers, Go maps as
--                   association lists, loops by index from the last element to the first
--   Cache           pkg/cache/cache.go: the store of nodes, the list by their links, the map
--   Bytes           texts as bytes, and what the code calls of the package strings
--   CircuitBreaker  pkg/circuitbreaker/breaker.go: the states and their transitions
--   RateLimit       pkg/ratelimit/limiter.go (Limiter) and keyed.go (Keyed), on floats (Float)
--   Retry           pkg/retry/retry.go (`Do` is `retry`) and backoff.go
--   Saga            pkg/saga/saga.go: `Run` with its rollback
--   Graceful        pkg/graceful/shutdown.go: the hooks of a shutdown
--   Middleware      pkg/middleware/middleware.go: `Chain`; the other files of pkg/middleware
--                   (Middleware/Handlers), on the traces of handlers
--   Queue           pkg/queue/queue.go: enqueue, a batch, a job and its statements; the SELECT of a
--                   poll (Queue/Polling), the workers from Start to Stop (Queue/Workers), the options
--                   and the handlers (Queue/Requests)
--   EventStore      pkg/eventstore/eventstore.go: `Append`, `Load` and the snapshots
--   Outbox          pkg/outbox/outbox.go: `Store` and the cycle of the relay; its options, its
--                   SELECT and its loop (Outbox/Polling)
--   Lock            pkg/lock/lock.go: acquisition, release and renewal; the keepalive
--                   goroutine and its channels (Lock/Keepalive)
--   Feature         pkg/feature/feature.go: the evaluation of a flag; the store of the flags
--                   (Feature/Storage)
--   Auth            pkg/auth/auth.go: roles, the bearer token and the two middlewares
--   Pipeline        pkg/pipeline/pipeline.go: `Chain`, `Compose`, `Compose3`, and `Process`
--                   (Pipeline/Process)
--   Async           pkg/async/semaphore.go: the semaphore and the throttle, the barrier
--                   (Async/Barrier) and `Debounce` (Async/Debounce); pkg/async/future.go
--                   (Async/Futures)
--   Stream          pkg/async/stream.go: the operators on one stream; FanOut, Tee and OrDone as steps
--                   (Stream/Channels), FanIn as steps (Stream/Merging)
--   Store           pkg/store/store.go: `WithTx`; `Open` with pkg/store/options.go
--                   (Store/Opening), the query helpers and their spans (Store/Spans);
--                   pkg/store/migrate.go (Store/Migrations, and the scheme of a DSN)
--   Pubsub          pkg/pubsub/bus.go: one subscription (Pubsub/Subscriber) and the bus
--                   (Pubsub/Registry)
--   Metrics         pkg/metrics/collectors.go and pkg/store/metrics.go: the collectors
--   Pool            pkg/pool/pool.go: the steps of the goroutines of a pool and its counters
--   Sched           pkg/sched/scheduler.go: the steps of the goroutines of a scheduler
--   Validation      pkg/validation/validation.go: the rules and the walk over the fields
--   Config          pkg/config/config.go: the environment file, the walk over the fields and `Load`
--   RedisCache      pkg/rediscache/cache.go: the cache on a Redis server
--   Server          examples/server/main.go: the requests for products, on Cache and
--                   CircuitBreaker; the orders and the hooks of the shutdown (Server/Orders)
--   Rpc             pkg/rpc/interceptors: recovery, logging and metrics of a call; the options of
--                   pkg/rpc/server.go and client.go (Rpc/Wiring)
--   Health          pkg/health/health.go: the report of the checks
--
-- How the code corresponds to the model. A method is a function from the state before to its
-- result and the state after; methods under a mutex are sequences of such steps. Times and
-- durations are nanoseconds in ℕ, and a clock reading is an argument, or read from the world.
-- Callbacks, handlers, publishers and user functions act on a world `W` that is passed through in
-- the order of the calls. `none` is an error or a panic where a definition says so: an index out
-- of range, a pointer that leads nowhere. Names follow the code in snake_case. An SQL statement or
-- a Lua script of the source is what its text does to the rows or with the commands of the server;
-- in a SELECT ... FOR UPDATE SKIP LOCKED the rows that others have locked are an argument. Floats,
-- random numbers, JSON, hashes, the Redis server, the scanner of lines, the Postgres driver, the
-- JWT library and the parsers of values are parameters; what the code relies on of them is a named hypothesis.
-- Goroutines that share a channel are a machine whose steps are their sends, receives and updates
-- (Pool, Sched, Pubsub/Subscriber, Queue/Workers, Lock/Keepalive, Async/Barrier, Async/Debounce,
-- Stream/Channels, Stream/Merging); counters such as how often Stop has returned are a record of
-- what has happened. Where only the order of their results matters, that order is an argument
-- (Pipeline/Process, Async/Futures).
--
-- Bounds and fuel. Loops are structural recursion over a list or over the number of rounds left.
-- `Lock.acquire` runs on fuel, as a lock without WithRetry may wait forever; with WithRetry the
-- fuel of one round for each attempt is enough. `RedisCache.flush` runs on fuel, one for each call
-- of SCAN, of which the server decides the number, and so does the listing of flags. The delay of
-- a job is computed in the 64 bits of a duration; other numbers are taken to stay in range.
--
-- Not modelled: the goroutine of Generate, the channels of the relay's Start and Stop and the
-- cancelling of the goroutines of futures; pure input and output (logs, the registry of metrics,
-- tracing, the servers and clients of HTTP and RPC); what reflection does (what it answers on a
-- struct stands in the data of the model); and errors of a database other than a taken primary
-- key, a failed commit and those of `Open`.
pub mod Prelude
pub mod Cache
pub mod CircuitBreaker
pub mod Saga
pub mod Graceful
pub mod Middleware
pub mod RateLimit
pub mod Retry
pub mod Queue
pub mod EventStore
pub mod Feature
pub mod Auth
pub mod Outbox
pub mod Lock
pub mod Pipeline
pub mod Async
pub mod Stream
pub mod Health
pub mod Store
pub mod Pool
pub mod Bytes
pub mod Validation
pub mod Config
pub mod RedisCache
pub mod Server
pub mod Rpc
pub mod Sched
pub mod Pubsub
pub mod Metrics
