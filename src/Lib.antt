-- ===== src/Lib.antt =====
-- The link shortener "shorty": a repository of links with a sliding window of hits for each, a
-- token bucket for each client, a Redis cache, an HTTP API and a gRPC service.
--
-- The parts, and the files that model them:
--   crates/domain/src/lib.rs                    Domain/Link: links, errors, the trait
--     LinkRepository as a record of operations, and what its clients rely on (IsLinkRepository)
--   crates/domain/src/stats.rs                  Domain/Stats and below: the ring buffer of sixty
--     cells (record_hit, get_last_60s, get_total) and the storage of windows with get_top
--   crates/domain/src/rate_limit.rs             Domain/RateLimit and below: try_consume
--   crates/storage/src/in_memory.rs             Storage/InMemory and below: each `*_sync` method
--     under its name, the contract as the stored codes and what each finds (Calls, Refines), the
--     listing (Paging), the purge
--   crates/storage/src/postgres.rs              Storage/Postgres: the methods under their names; below
--     it what the statements mean over the table of crates/storage/migrations, with its checks (Sql),
--     the contract over the table of links (Contract, Steps, Updates, Refines), the optimistic locking (Update), the listing (Paging), the contract of the trait
--     (Replies, Keeps)
--   crates/storage/src/rate_limit_storage.rs    Storage/RateLimit and below: check_and_consume
--   crates/storage/src/cache.rs                 Server/Cache: get, set, invalidate, jittered_ttl
--   shorty-server/src/api/error.rs              Server/Error: AppError and its responses
--   shorty-server/src/api/dto.rs                Server/Dto: requests, responses, validation
--   shorty-server/src/api/handlers.rs           Server/Handlers: the handlers under their names;
--     Coherence, Reading, Sessions and Race are about the cache beside the repository, Generate
--     about generate_code, Created about a created link; Hits is redirect by its steps, Flights
--     many redirections beside other requests
--   shorty-server/src/api/stats.rs              Server/Stats
--   shorty-server/src/api/rate_limit.rs         Server/RateLimit
--   shorty-server/src/auth/mod.rs               Server/Auth: keys, tokens, login, middleware
--   shorty-server/src/grpc/mod.rs               Server/Grpc: the unary methods, the page token;
--     Stream is the stream of events as steps, Delivery is about it; Created and Agrees are about the
--     gRPC service beside the HTTP API
--   shorty-server/src/cleanup.rs                Server/Cleanup: the cleaner's loop over events
--   shorty-server/src/config.rs                 Server/Config: from_env, its closed form in Reading
--   shorty-server/src/lib.rs                    Server/Router: the routes; Serve is what a request
--     comes to, Guarded and Session are about the authentication, Template is the label of a path,
--     Layers the layers around the routes, with request_id.rs, http_metrics_middleware and
--     make_span; Marked, RequestIds and Requests are about them; Created is about a created link
--   shorty-server/src/main.rs                   Server/Config: create_cache; Server/Startup:
--     create_repository and run up to the start of its tasks, with init_metrics of
--     crates/storage/src/telemetry.rs; Server/Process: the tasks of run as steps, Shutdown and Lost
--     are about their end
-- Common holds what they share: results with a panic, maps, texts, times, sorting.
--
-- How they interact: the handlers and the gRPC service take a LinkRepository as an argument, which
-- Storage/InMemory fills (`in_memory`) and Storage/Postgres (`postgres`); Storage/InMemory/Contract
-- and Storage/Postgres/Keeps are about its laws. A handler is an action on a World, the state of
-- the repository and of the cache; the middleware of the rate limit acts on the storage of buckets.
-- Requests are sequences of such actions (Server/Handlers/Sessions), and Server/Router takes a
-- request to its handler through the layer of the authentication, inside the layers of
-- Server/Router/Layers. Each call of the repository or of Redis is one step. Server/Handlers/Race
-- takes the steps of get_link apart, with other requests between them, and Server/Handlers/Flights
-- those of redirections, beside calls of the repository by other requests; other interleavings of
-- the steps of two requests are not modelled. The tasks of the process and of a gRPC stream are
-- step relations.
--
-- Conventions. An action is a function of the state to an outcome (a value, an error or a panic)
-- and a state: what was written before an error stays. A reading of the clock and a random draw is
-- an argument of what makes it. SystemTime is a signed number of nanoseconds from the epoch,
-- Instant a number of nanoseconds from the start of the clock, whose subtraction panics below 0. An
-- i64 is a signed number, a u64 a natural number with its wrap-around written out (a build in
-- release mode); a HashMap is an association list, whose keys are distinct in a well-formed
-- state.
--
-- Bounds and fuel: the loop of generate_code runs on the number of attempts that the configuration
-- allows; the loop that clears cells runs on the number of its turns; a client that follows the
-- cursors of a listing of n links makes n + 1 requests at most; the printer of numbers runs on the
-- number plus one, which is more than its digits.
--
-- Parameters: the floating-point numbers of the token bucket (F64, with the laws IsIeee that hold
-- for whole numbers up to 2^53), Redis and serde_json, the crates url, base64, jsonwebtoken, argon2
-- and chrono, the file system, the environment, the statements of SQL, how axum matches a path and
-- extracts a body, the layers of tower-http. Their laws are records of hypotheses (IsIeee, IsRedis,
-- HasRoundTrip, IsJwt, IsSql, IsPageSql, IsMatcher, IsTower), which an instance in the tests satisfies.
--
-- Not modelled: Swagger UI and the OpenAPI document; tracing and metrics but for the span, the
-- counter and the histogram of a request and the installation of the recorder; the number of worker
-- threads; the resolution of the times that PostgreSQL stores and texts with the character NUL,
-- which it refuses. Whether the gRPC server can be set up (its address, its socket, the file of its
-- descriptors) is an argument of the process. What a handler has done when the timeout drops it is an
-- argument of the layers.
pub mod Common
pub mod Domain
pub mod Storage
pub mod Server
