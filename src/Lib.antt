-- ===== src/Lib.antt =====
-- shortn, a URL shortener: the Go program of cmd/ and internal/.
--
-- The API program answers HTTP requests: internal/http stands in front of the domain service of
-- internal/shortener, which draws codes from internal/idgen and keeps links in a LinkStore. That
-- store is the Redis cache of internal/cache over the circuit breaker of internal/resilience over the
-- Postgres of internal/store. A redirect publishes a click event (internal/events); the program
-- cmd/analytics reads the events and writes each click and its offset to Postgres in one transaction.
-- Redis also holds the rate limiter's buckets (internal/ratelimit), the idempotency keys
-- (internal/idempotency) and the worker ids that instances lease (internal/idgen/lease.go). cmd/api
-- wires the program from the settings of internal/config.
--
-- Conventions. A Go function that returns a value or an error and acts on its dependencies is an
-- action, W → Result A × W (Act), on a world W that the dependencies share; errors are those of
-- Error, with errors.Is and wrapping. What the program only calls is a parameter: Redis (Redis, with
-- RedisLaws for its documented behaviour), the URL library (UrlLib), the JSON decoder, clocks, the
-- sqids encoder, the Kafka client, OpenTelemetry, gobreaker and backoff. Counts and times are natural
-- numbers, a signed quantity of the source is the ℤ of Prelude/Int; the identifier's shifts and masks
-- are on 64-bit words.
--
-- The files:
--   Prelude          shared names and lemmas, integers, bits of a machine word
--   Error, Act       Go errors and actions
--   Config           internal/config/config.go
--   Observability    internal/observability/observability.go: setup is Setup and shutdown the closure
--                    it returns, over the providers that OpenTelemetry makes; Laws: their proofs
--   Process          deferred calls and exit codes of both programs
--   Idgen            internal/idgen/snowflake.go. Generator is SnowflakeGenerator, generate is
--                    Generate with its two readings of the clock as arguments; Layout: the fields of
--                    an identifier, Fleet: several generators called in any order, Stall: a clock
--                    that stands still. Idgen/Lease is internal/idgen/lease.go: acquire_worker_id is
--                    AcquireWorkerID, whose loop runs over the 1024 slots, renew_script and
--                    release_script are the Lua scripts; Laws: what Redis does with the slots, Cluster:
--                    pods that come, renew and go as a step relation. Idgen/Random is
--                    internal/idgen/idgen.go
--   Shortener        internal/shortener/shortener.go. Service and its methods, Url: normalizeURL and
--                    isBlockedIP, Create: the runs of Create. Its loop is the recursion create_loop
--                    on the maxCreateRetries = 5 rounds, the bound of the source
--   Cache            internal/cache/store.go and redis.go. CachingStore and its methods; Coherent:
--                    when the cache agrees with the source, Reads and Writes: what keeps it so;
--                    Stale: requests that interleave, as a step relation in which a lookup that
--                    misses reads the store in one step and writes to Redis in a later one, Timely
--                    and Runs: its invariant, Bound: how old an answer can be
--   Resilience       internal/resilience/resilience.go. ResilientStore and its methods, settings
--                    those of the breaker; Laws: what gobreaker and backoff do, Tries and Reads:
--                    reads that are retried, Writes: calls that are not, Calls: what both have in
--                    common, Sheds: when the breaker opens
--   Ratelimit        internal/ratelimit/ratelimit.go. bucket_script is the Lua script, with tokens in
--                    millionths and times in microseconds, so that its fractions are whole numbers
--   Store            internal/store/postgres.go, Store/Analytics internal/store/analytics.go. A query
--                    is a function on the tables of migrations/; the round trip of a statement is
--                    answered, lost, or carried out without an answer (Trip), and a parameter of
--                    type text with a NUL is refused. Links and Outcomes: the writes of the links
--                    table, Refines: its calls as those of a map from codes to URLs, Order and Pages:
--                    List, Statistics: what GetStats computes
--   Events           internal/events/events.go
--   Analytics        cmd/analytics/main.go. process, the loop consume over a session's polls, in
--                    Assigned the seek of onAssigned, in Session both together, in Main the program
--                    from its start to its end; Atomic: one record, Exactly: sessions, also those
--                    that read the log again, Main/Exact: the whole program
--   Idempotency      internal/idempotency/idempotency.go
--   Redis            the Redis client of go-redis
--   Api              internal/http. Links: the handlers of links.go, Middleware: middleware.go and
--                    ratelimit.go, Router: router.go; Guards, ClientIp, Redirects, Told, Idempotent,
--                    Paging: their proofs
--   Program          cmd/api/main.go. st, resilient, caching, svc and router_deps are what it wires
--                    together; Lookup, Stack, Redirect: a redirect through all of it, Writes, Creates,
--                    Deletes: one after a create or a delete. Program/Main is main itself; Start, Ends,
--                    Answers: its proofs
-- The Tests module of a part runs it on small worlds.
--
-- Not modelled: logging, the tracing hooks of the clients and the metrics of the consumer, which only
-- call libraries; the server of the metrics; what a deadline does to a call under way, which
-- surfaces as an error of a dependency; the timeouts of the clients; the doubles of the Lua script
-- of the limiter; requests that interleave within a handler, but for the claims of a key (Idempotent)
-- and the lookups of the cache (Cache/Stale). All recursions are structural, so there is no fuel:
-- the retries of backoff are its own, and every run of them that its documentation allows is covered.
pub mod Prelude
pub mod Error
pub mod Act
pub mod Idgen
pub mod Shortener
pub mod Redis
pub mod Cache
pub mod Ratelimit
pub mod Events
pub mod Store
pub mod Analytics
pub mod Idempotency
pub mod Resilience
pub mod Api
pub mod Config
pub mod Observability
pub mod Process
pub mod Program
