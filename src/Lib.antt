-- ===== src/Lib.antt =====
-- Discord Lite Server: a server between small clients and the Discord API. A client starts a
-- sign-in over gRPC and opens a page of Discord, Discord redirects to the HTTP server with a code
-- and a state, and the client asks over gRPC until its session is authenticated. From then on
-- the server reads guilds, channels and messages with the user's token, caches them in
-- PostgreSQL and passes on the events of the Discord Gateway.
--
-- Parts and files:
-- - Models: the structs of internal/models and the eleven tables of
--   internal/database/migrations/000001_initial.up.sql and 000002_add_phase2_tables.up.sql as the
--   record Tables (Models/Schema).
-- - Effect: what the code does besides computing. An Action passes the tables and a step number
--   on and returns a value or an error. Each reading of the clock, each statement and each request
--   is one step; an Env says what the clock shows and at which steps the database fails, so
--   that a theorem for every Env covers a failure at every place. A failed statement changes no
--   table, and a transaction that does not commit restores the tables.
-- - Database: internal/database/queries.go, cache_queries.go, guild_queries.go,
--   channel_queries.go, message_queries.go and websocket_queries.go, one function per query, with
--   the keys, references and cascades that the schema enforces. A serial column counts up also when
--   the insertion fails. ORDER BY is a sort that keeps rows with equal keys in the order of the
--   table; the collation of names is the field text_le of Env.
-- - Database/Content and Sound: the invariants of the tables. Database/Reads and Stores: the
--   rulesets and the record of operations by which a client proves that it keeps an invariant.
-- - Auth: internal/auth: StateManager, Discord (exchange, refresh), Api (the requests for guilds,
--   channels and messages), Cipher (EncryptToken, DecryptToken) and Callback (HandleCallback,
--   updateSessionFailed).
-- - Grpc: AuthServer (internal/grpc/auth_service.go), ChannelServer (channel_service.go),
--   MessageServer and MessageServer/Stream (message_service.go), CacheManager (cache_manager.go),
--   Session (the steps that these handlers share), Proto (messages of api/proto). Access and Denied
--   say who is answered and who is refused.
-- - Server: histories of the sign-in calls, and in Server/Traffic of all calls, events and
--   clean-ups.
-- - Websocket: Channels (Go channels as buffers in a heap, with panics as values), Gateway
--   (internal/websocket/gateway.go: the state of a connection, and in Gateway/Protocol its frames,
--   ticks and outputs), Manager (internal/websocket/manager.go; the connections are in
--   Manager/Connections) and Events (internal/websocket/events.go).
-- - Ratelimit: internal/ratelimit/limiter.go.
-- - Config: internal/config/config.go.
-- - Base: tests, keyed equality, rows of a table, sorting, tables with ids and references, lists,
--   association lists. Tests: examples.
--
-- The calls go from Grpc and Auth down to Database; Websocket uses the tokens of Database and the
-- refresh of Auth. Random bytes, base64, AES-GCM, OAuth endpoints, HTTP, JSON and UUIDs are fields
-- of Crypto and Remote in Auth/Services, the answers and numbers of the Discord API those of Api
-- in Auth/Api, the data of an event those of Decoder in Websocket/Events, the token bucket and the
-- parsers those of Library in Ratelimit, the environment variables those of Host in Config; what a
-- theorem needs of them is a hypothesis (IsCrypto, TakesLater). All recursion is on lists, so no
-- fuel is used. Instants are nanoseconds without a bound; ints and durations that are parsed from
-- text are 64-bit patterns.
--
-- Not modelled: the rate limiter inside makeAPIRequest (a request that it refuses is one without
-- an answer), the wait of a stream (what its select receives is a list), the dial of a connection
-- and writers that use its socket at once, logging, the start of the process, HTML pages, generated
-- code; a value that does not fit its column, and the cause that an error text ends with. The body
-- of a transaction issues all its statements in it. A handler runs from its first to its last
-- statement without another in between; the background loops are the calls that they make.
pub mod Base
pub mod Config
pub mod Models
pub mod Effect
pub mod Database
pub mod Auth
pub mod Grpc
pub mod Server
pub mod Websocket
pub mod Ratelimit
pub mod Tests
