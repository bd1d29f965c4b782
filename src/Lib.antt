-- ===== src/Lib.antt =====
-- ChainPulse: the start of the server, the request path of its gateway and what stands behind it,
-- and the import linter, in shallow embedding.
--
-- A request comes to the gateway, is authenticated (a bearer token or an API key), rate-limited,
-- deduplicated by its idempotency key on write routes, and authorized by the policy engine, which
-- audits its decision, before a handler runs. The parts call each other as the Go packages do; a
-- middleware is a function from the rest of the chain (`c.Next()`) to a handler, and a handler maps
-- the context and the state of the server to an outcome.
--
--   Identity            shared/identity/identity.go: roles, the trusted caller
--   Logger, Scope       shared/logger/logger.go, and the values of a request's context
--   Http                shared/httpx/errors.go, and what is used of gin: context, response, handler
--   Audit               internal/audit/audit.go
--   Policy              internal/policy/engine.go: the engine
--     Decisions, Order  what it allows; the order of its rules
--     Rules             internal/policy/rules.go: the default rules, their permissions per role
--     Enforce           internal/policy/middleware.go: the gate in front of a handler
--   Storage             shared/storage/redis.go: tenant keys, get, set, set-if-absent
--   Auth                internal/auth
--     Errors            the sentinel errors
--     Token             jwt.go: issue, validate, refresh
--     ApiKey            apikey.go: generated keys and their display prefix
--     Rows, Store       apikey_postgres.go and db/migrations/00003_create_api_keys.sql: the table
--                       and the calls on it
--     Store/Registry    the store (APIKeyStore) as its callers see it, without the table
--     Store/RowOrder    the order of the rows, which the statements without ORDER BY leave open
--     Store/Spelled     the same calls for UUIDs in whatever spelling, which the database reads
--     Handlers          handler.go, apikey_handler.go: the endpoints
--   Gateway             internal/gateway
--     Header            middleware/auth.go: the bearer token of a header
--     Authenticate      middleware/auth.go: the trust boundary
--     RateLimit         middleware/ratelimit.go: the Redis script and the in-memory limiter
--     Limit             middleware/ratelimit.go: the middleware over the two
--     Limit/Instances   the same on several instances of the gateway that share one Redis
--     Idempotency       middleware/idempotency.go: first executions and replays
--     Idempotency/Interleaved  the same for requests with one key that overlap, as a step relation
--     RequestId         middleware/requestid.go
--     AccessLog         middleware/logging.go
--     Stub              stub.go: the answer of the stub handlers, the resource extractor
--     Deps              what router.go is built from, the state, the outside of one request
--     Router            router.go: the endpoints and their chains
--     Router/Traffic    histories of requests to any of them
--   Config              shared/config/config.go: Load, defaults, integers of the environment
--     DotEnv            loadDotEnv; its Format describes files that it reads back
--   Server              cmd/server/main.go, shared/storage/postgres.go, NewRedis: what the process does
--                       from its start to its end, as a sequence of events
--   ArchLint            tools/archlint/main.go: the import linter
--   Tests               concrete runs
--
-- A Go string is a native `String`, an int of the source that can be negative an integer, a time or
-- a duration a native number: of milliseconds in the limiters, of nanoseconds for tokens and keys,
-- of which a TIMESTAMPTZ column keeps whole microseconds (`timestamptz`). Loops are
-- structural recursion, so no fuel is used. The product of an environment's number of milliseconds and a
-- millisecond wraps around at 64 bits (`wrap64`); elsewhere no sum of the modelled code comes near 2^63.
--
-- Third-party code is a parameter with its documented laws: the commands of Redis (`RedisServer`,
-- `StringLaws`, `SortedSetLaws`), golang-jwt (`JwtLib`, `JwtLaws`), encoding/json (`JsonCodec`,
-- `CodecLaws`), SHA-256, the random source and the UUIDs, with how Postgres reads one (`Uuid`), float64 (`FloatOps`). A call of Redis or
-- of Postgres that fails is told by a `Fault`: either the server did not run it, or its reply was
-- lost. The time-out race of the policy engine is a `Race`.
--
-- What the outside answers at the start and the end of the process (`Platform`), time.ParseDuration and
-- golang.org/x/tools/go/packages (`Loader`) are parameters.
--
-- Not modelled: gin's matching of paths and its recovery from panics (a handler of the model
-- returns), the JSON encoding of log lines, and the texts of errors that only reach the log. A time to
-- live or a window that the environment sets below zero is kept by `Config`, but the tokens, the
-- limiters and the idempotency take natural numbers. The endpoints and the router take the UUIDs of
-- tenants and keys as the database prints them; only the calls of the store itself are modelled for
-- other spellings (Store/Spelled).
mod Prelude
pub mod Identity
pub mod Logger
pub mod Scope
pub mod Http
pub mod Audit
pub mod Policy
pub mod Storage
pub mod Auth
pub mod Gateway
pub mod Config
pub mod ArchLint
pub mod Server
mod Tests
