-- ===== src/Lib.antt =====
-- A verification library of integresql, the server that hands out isolated PostgreSQL databases to
-- tests: a client initialises and finalises a template under a hash, and then fetches, returns or
-- recreates test databases that the pool of that hash keeps ready.
--
-- Which file models which part:
-- - Errors: the error values, results, and what a call comes to (it returns, waits, or panics).
-- - Database: pkg/db (`DatabaseConfig`, `ConnectionString`); Database/Sorting and Database/Decimal
--   are `sort.Strings` and the verbs `%d` and `%03d`.
-- - Pool: pkg/pool/pool.go. Pool.antt has `existingDB` and `HashPool`; the operations are in
--   Pool/Take (`GetTestDatabase`), Pool/Give (`ReturnTestDatabase`), Pool/Recreate
--   (`RecreateTestDatabase`, `recreateDatabaseGracefully`), Pool/Clean (`autoCleanDirty`),
--   Pool/Extend (`extend`), Pool/Lifecycle (`Start`, `Stop`, `ignoreErrs`),
--   Pool/Removal (`RemoveAll`), Pool/Channel (channels, `excludeIDFromChannel`), Pool/Name
--   (`makeDBName`). Pool/Recreate/Undisturbed and Pool/Extend/Failing follow whole calls that nobody
--   disturbs, Pool/Clean/Lifetime one in which a database changes hands.
-- - Pool/Workers: the goroutines of `controlLoop`, `workerTaskLoop` and the handlers with their
--   channels, the semaphore and the wait group, as a step relation of its own.
-- - Pool/System: a running pool with its clients and workers as a step relation, interleaved at the
--   critical sections and channel operations. Pool/Effects says what each section does, and
--   Pool/Invariant that it preserves the invariant. Pool/Contract is the abstract specification, a
--   shelf of databases that are free or lent, which a running pool refines.
-- - Pools: pkg/pool/pool_collection.go, a map from hashes to pools.
-- - Templates: pkg/templates. Templates live on a heap, since the collection shares pointers.
--   Templates/Waiting interleaves `SetState` and the calls of `WaitUntilFinalized` for one template.
-- - Manager: pkg/manager/manager.go. Manager/Config is `New`, Manager/Statements what is sent to
--   PostgreSQL, Manager/Calls and Manager/Requests the calls.
-- - Api: internal/api/templates/templates.go, down to the status codes.
-- - Middleware: internal/api/middleware/logger.go. Middleware/Headers has the headers with
--   `http.CanonicalHeaderKey` and `strings.EqualFold`, Middleware/Redaction
--   `DefaultHeaderLogReplacer`, Middleware/Messages the other defaults and the configuration,
--   Middleware/Logger `LoggerWithConfig`.
-- - Server: internal/api/server.go, internal/router/router.go and the routes; Server/Config is
--   internal/api/server_config.go, Server/Command cmd/server/main.go (when the goroutine of `Start`
--   runs is an argument), and Manager/FromEnv pkg/manager/manager_config.go.
-- - Util: pkg/util, with Util/Environment for env.go and Util/Context for context.go and log.go.
-- - Prelude: lists, bytes, association lists, counting. Examples: concrete runs.
--
-- How the state corresponds: a Go map is an association list, a buffered channel the list of what it
-- holds, the lock of a pool a flag that says whether somebody keeps it for good. A send on a full
-- channel and a lock that is kept are the outcome `blocked`, an index out of range, a nil pointer
-- and a send on a closed channel the outcome `panicked`. Sizes and durations are configured as
-- natural numbers; the generation of a database wraps around at 2 ^ 64.
--
-- What is an argument: the time, the case that a `select` takes, the state of a context, what
-- PostgreSQL answers (`Postgres`), what `recreateDB` and `removeFunc` return, what the workers of a
-- pool do until they have stopped (`quiesce`), and what a wait for a template ends with. The retry
-- loop of `recreateDatabaseGracefully` runs on the list of its rounds; `retrying` says that the
-- list is used up, and a call in which the loop goes on forever is `blocked`.
--
-- What is left out: the lines that the program logs, but for those of the middleware, and tracing;
-- in Pool/System the limit on parallel tasks, `Stop` and `RemoveAll`, and in Pool/Workers what the
-- handlers do to the pool; `RecreateTestDatabase` filters the channel `dirty` without the lock, and
-- Pool/System takes its call as one step; what other callers do between two sections of a call of
-- the manager; the mutex of the collection of pools, and the database that comes back beside
-- `ErrTemplateAlreadyInitialized`; of Echo everything but what is registered with it;
-- internal/router/echo_logger.go and internal/config, which only write for the log; the test client.
pub mod Prelude
pub mod Errors
pub mod Database
pub mod Pool
pub mod Pools
pub mod Templates
pub mod Manager
pub mod Api
pub mod Util
pub mod Server
pub mod Middleware
pub mod Examples
