-- ===== src/Lib.antt =====
-- The status service keeps Token Status Lists: packed arrays of small status values, one per issued
-- credential, which verifiers fetch as signed tokens. Issuers allocate an index and later change its
-- status through a sharded ingestion service; each shard has a Redis with its bitmaps, and all shards
-- share the Postgres tables.
--
-- Components, and the files that model them:
-- - Bitmap (internal/statuslist/bitmap.go): `Bitmap` is the record of the same name; `set_status` and
--   `get_status` are `Set` and `Get`. Bytes and 64-bit products wrap, and a slice index out of range is
--   the error `panic`. `Bitmap.Entries` has the invariant `IsValid`.
-- - Script, Redis, BitmapStore (internal/store/redis.go): the Lua script's byte arithmetic, the Redis
--   commands, and the store's operations. Redis is a parameter: a state with commands, and `Laws`,
--   what the documentation of the commands says. `Tests.Data.memory` is one that has the laws.
-- - Allocator (internal/allocator/allocator.go): `index` is `Index`. HMAC is a parameter, a function
--   from key and message to bytes, of which nothing is assumed.
-- - Rows, Store (internal/store/postgres.go): the three tables as lists of rows, the SQL statements on
--   them, and the operations of `MetaStore` over `World`.
-- - World: the tables, the Redis of each shard, the debouncer, the clock, the random numbers that the
--   process will draw, and which calls of a server will fail. `M` is the monad of operations on it. A
--   call that fails has no effect; a transaction that fails restores the tables.
-- - Pool (internal/pool/pool.go), Ingestion (internal/ingestion/handlers.go and auth.go, and
--   `MarkDirty` of internal/publisher/publisher.go), Gc (internal/gc/sweeper.go), Decoy
--   (internal/decoy/decoy.go): the services' own logic over the stores.
-- - Debounce (internal/publisher/debounce.go): `trigger` is `Trigger`, `timer_fires` the callback of a
--   timer, and `Debounce.Timing.Run` the runs of both by the clock.
-- - Publisher (internal/publisher/publisher.go and internal/verifier/handlers.go): the cache of signed
--   tokens and the endpoint that serves them. The two token builders with the signing key are fields of
--   the publisher, and the format that is asked for is an argument; Negotiation (the same handlers)
--   finds it in the `Accept` header, and Strings has what the code uses of Go's package of that name.
--   `Publisher.New` builds a publisher from the signing key, and `Publisher.Backstop` is one tick of the
--   periodic publishing.
-- - Signer, Token, Cwt (internal/statuslist/signer.go, token.go and cwt.go): a signature's raw form, and
--   the two formats of a token, built and parsed. `Key` is the signing key with its public half;
--   JSON, CBOR, zlib and base64 are the fields of `Codec`, and `Laws` what their packages document.
-- - AuthServer (internal/as/handlers.go): `handle_token` is the token endpoint. It uses Assertion
--   (internal/clientassertion/verify.go), Trust (internal/trust), Shards, and AccessToken
--   (internal/accesstoken/keymanager.go). The packages for JWTs, keys and certificates, the decision
--   point and the signer are parameters.
-- - Config (internal/config/config.go): `Config.Load` has the loaders of the four services' settings, and
--   Config the readers of single variables and where the signing key and its certificates come from;
--   the environment, the parsers of numbers, JSON, PEM, X.509 and base64 are a record of parameters.
--   `AuthServer.Startup` (cmd/as/main.go) is the authorization server that the settings describe.
-- - LoadTest (tools/loadtest/worker.go, lifecycle.go and verify.go): a worker of the load test, over any
--   services that answer its requests; what it reads of a published token; and its check of the tables
--   and of Redis after a run.
-- - Interleaving: the runs of all services at once over the tables, in which each statement or
--   transaction of internal/store/postgres.go is one step and rows are read at any earlier time.
-- - Reassign (tools/reassign-shard/main.go): the tool that moves issuers between shards.
-- - ListId (internal/listid/listid.go), Shards (internal/as/shard.go), Router
--   (internal/ingress/router.go): how a request finds its shard. In Shards other requests may assign
--   between any two calls of one request; the SHA-256 digest is a parameter. In Router the token
--   validator is a parameter.
-- - Result has the error values of all packages, Prelude the shared helpers, Tests concrete runs.
--
-- Numbers are unbounded unless their wrap-around is written out; a time is a number of nanoseconds or
-- seconds, as the code that uses it counts. An operation of `World` runs alone: what other processes do
-- between its calls is modelled in Shards, in Reassign over it, for the tables in Interleaving, and
-- before the write of a decoy in Decoy. A time of issue in a token is cut to whole seconds, as
-- `NewNumericDate` and `Unix` do.
--
-- Bounds: `Index` gives up after 1000 walks, as the code does; `bit_length` has 64 rounds, enough
-- for a 64-bit number; `attempt` counts the five attempts of the code; `trim_left` has a step for
-- each byte of its text, and each step removes one at least; `certificates_in` has one round more
-- than its text has bytes. All other recursions are structural.
--
-- Not modelled: HTTP, JSON and the route tables; PKCS#11; metrics, and when the ticker loops tick;
-- opening and closing connections; the load test's set-up and report, and the generators under tools.
pub mod Prelude
pub mod Result
pub mod Bitmap
pub mod Script
pub mod Redis
pub mod Allocator
pub mod Rows
pub mod Debounce
pub mod World
pub mod Store
pub mod BitmapStore
pub mod ListId
pub mod LoadTest
pub mod Pool
pub mod Gc
pub mod Ingestion
pub mod Interleaving
pub mod Decoy
pub mod Shards
pub mod Router
pub mod Publisher
pub mod Signer
pub mod Token
pub mod Cwt
pub mod Assertion
pub mod Trust
pub mod AccessToken
pub mod AuthServer
pub mod Strings
pub mod Reassign
pub mod Negotiation
pub mod Config
pub mod Tests
