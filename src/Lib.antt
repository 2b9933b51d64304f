-- ===== src/Lib.antt =====
-- The storage, sharing and account core of the backend: uploads, files, folders, the trash, search,
-- file shares, favorites and the audit queue, and logins, sessions and tokens, from
-- internal/usecase down to the SQL of internal/repo/persistent/postgres and the commands of
-- internal/repo/cache/redis.
--
-- The program. A handler of internal/controller/restapi/v1 calls a service of internal/usecase with
-- the user of the token. The service runs SQL statements through the repository interfaces, which
-- postgres.Storage implements, calls the object store, which minio.Store implements, and Redis,
-- which holds SRP sessions, blocked device sessions and the counters of the rate limiters; it keeps
-- no state of its own but for the queue of the audit log. The auth service runs the server side of
-- pkg/srp at a login, and issues the access tokens of pkg/jwt with its own refresh tokens.
--
-- How it is modelled. An operation is an action on a world (Store/Effects): the tables and the keys
-- of Redis, the calls made so far of the object store, the mailer and the audit log, and a count of
-- the questions put to the outside. It returns a result or an error and a world. Each answer from
-- outside is the environment's: whether a statement, a commit or a command of Redis fails, the
-- clock, new ids, random bytes, the hash, the texts of ids and bytes, signed and verified tokens,
-- and what the object store and the mailer answer. One statement is one step that runs whole or
-- fails whole, and so is a command of Redis, a script or a pipeline; a transaction is
-- `in_transaction`, which puts the tables back unless it commits. No command of Redis stands inside
-- a transaction.
--
--   Base: native numbers, texts as lists of code points, the clauses of SQL over lists of rows, and
--   powers modulo a number.
--   Store/Rows: internal/entity and the tables of migrations, with ON DELETE; Store/Keys: the keys
--   of Redis and their expiry. Store/Effects and Store/Objects: actions, and the interface
--   ObjectStore. Store/Keeps: invariants of actions; Store/Yields, Store/Ends, Store/Transactions,
--   Store/Steps, Store/Answering: what holds when an action returns or fails; Store/Ticks: time goes
--   on; Store/Quiet: what an action logs.
--   Blobs, Folders, Shares, Sessions, Users: the methods in blobs.go, folders.go, shares.go, in
--   refresh_sessions.go and device_sessions.go, and in users.go and password_reset.go of
--   internal/repo/persistent/postgres, under their names in snake case, with the constraints of
--   migrations on these tables.
--   Blocklist, Limiter, SrpSessions: session_blocklist.go, rate_limiter.go and srp_sessions.go of
--   internal/repo/cache/redis. Srp: pkg/srp/srp.go over natural numbers; Srp/Group
--   gives its prime by the formula of RFC 3526, with π from 460 terms of each series of Machin's
--   formula at 130 bits to spare. Tokens: pkg/jwt/service.go.
--   Names: sanitizeFileName. Uploads, Files, Directories, Bin: the methods of
--   internal/usecase/storage/service.go on multipart uploads, blobs, folders and the trash. Where
--   service and repository use one name, the service's says file or directory (`delete_file` is
--   Service.DeleteBlob, `delete_directory` is Service.DeleteFolder).
--   Search: Service.Search of the same file, with SearchBlobs, SearchFolders and escapeLike.
--   Sharing: internal/usecase/sharing/service.go.
--   Favorites: internal/usecase/favorites/service.go over favorites.go of postgres.
--   Auth: internal/usecase/auth/service.go: Auth/Pairs makes tokens, Auth/Logins registers and logs
--   in, Auth itself refreshes and ends sessions, Auth/Resets resets passwords, Auth/Requests runs
--   the handlers' requests one after the other.
--   Middleware: internal/controller/restapi/middleware.go, with the handler as an argument. Rest:
--   the handlers of internal/controller/restapi/v1 that answer 204, over what they read of a
--   request. UserAgent: pkg/useragent/useragent.go.
--   Audit: the queue and the worker of internal/usecase/audit/service.go, whose two goroutines are
--   the steps of a relation. Each receive and each try of `insertWithRetry` is a step of its own, so
--   that events are logged between two tries; the sleeps are the time between two steps.
--   Audit/Table: its ListEvents, and audit.go of postgres.
--   Tenants: the handlers' requests on blobs, one after the other.
--   Tests: sample tables, and each theorem applied to them.
--
-- Bounds. Ids and times are natural numbers, times in nanoseconds; `now - ttl` stops at 0, the first
-- time, and id 0 is uuid.Nil. The bytes in use are a sum in NUMERIC cast to int64, which fails from
-- 2^63 on, and the quota test wraps as int64 does. A recursive query runs in rounds; the environment
-- bounds their number (`cte_rounds`), as the deadline of ten seconds does, and a query that wants
-- more fails like any statement. `to_bytes` runs on the number itself as fuel, more than it has
-- bytes.
--
-- Not modelled. Two requests at a time: statements of different requests are not interleaved. A
-- commit that fails is taken to have changed nothing, and so is a command of Redis or an insert
-- of an audit event that fails. A key of Redis lives to the nanosecond, where Redis counts
-- milliseconds. The mail of a new share, the fixed delay of a password reset, logging, and the
-- lifetime of a link. An audit log that is nil. The JSON of an SRP session is taken to be read
-- back as it was written. The handlers that answer JSON or set cookies, the decoding and the
-- validation of bodies by libraries, and the packages mailer and config: texts, settings and
-- calls of libraries.
pub mod Base
pub mod Store
pub mod Blobs
pub mod Folders
pub mod Names
pub mod Uploads
pub mod Files
pub mod Directories
pub mod Bin
pub mod Search
pub mod Shares
pub mod Sharing
pub mod Favorites
pub mod Audit
pub mod Tenants
pub mod Srp
pub mod Auth
pub mod Sessions
pub mod Blocklist
pub mod Limiter
pub mod Tokens
pub mod SrpSessions
pub mod Users
pub mod Middleware
pub mod UserAgent
pub mod Rest
pub mod Tests
