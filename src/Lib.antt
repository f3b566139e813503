-- ===== src/Lib.antt =====
-- LyricsPlus, a server that collects time-synced lyrics from several providers, caches them and
-- serves them in one format (internal/, cmd/server).
--
-- A request becomes a `SearchQuery`. The service looks into the memory cache and the store, and
-- asks the providers where these have nothing: `Dedup.Get` joins the requests with one key; the
-- `Racer` asks the providers in phases, each call admitted by the circuit breaker and then by the
-- limiter, grades the responses and picks a winner; the answer is kept in caches. Lyrics also come
-- in as submissions with a proof of work, and from other databases, which are merged by quality.
--
-- Files:
--   Common, Common/           tests on numbers, lists, maps as association lists, int64 words
--                             (bit patterns below 2 ^ 64), text as lists of code points, and the
--                             decimal printing of internal/api/middleware/middleware.go
--   Domain, Domain/Query      internal/domain: v2.go, v1.go, catalog.go
--   Orchestrator/Breaker      internal/orchestrator/breaker.go: Allow, Report, Neutral, Status
--   Orchestrator/Health       internal/orchestrator/breaker.go: IsHealthFailure
--   Orchestrator/Limiter      internal/orchestrator/limiter.go: Acquire, TryAcquire and releases, as
--                             tasks whose steps interleave, over an interface `Semaphore`
--   Orchestrator/Grade        internal/orchestrator/grade.go
--   Orchestrator/Race         internal/orchestrator/race.go: Result, pickWinner
--   Orchestrator/Session      internal/orchestrator/race.go: raceSession, tryFetch, admission
--   Orchestrator/Phases       internal/orchestrator/race.go: runPhase, raceForPriority, Race
--   Orchestrator/Dedup        internal/orchestrator/singleflight.go: keyTracker
--   Storage/Lru               the interface of github.com/hashicorp/golang-lru
--   Storage/MemoryCache       internal/storage/memcache.go
--   Storage/Watchdog          internal/storage/watchdog.go: when the caches are shed
--   Storage/Codec             internal/storage/codec.go, over compress/zlib and compress/gzip
--   Storage/Quality           internal/storage/merger.go: DetectLyricsQuality
--   Storage/Merger            internal/storage/merger.go: the merge by quality
--   Storage/Filename          internal/storage/filename.go: CanonicalFilename
--   Parsers/Lrc               internal/parsers/lrc.go
--   Parsers/Kpoe              internal/parsers/kpoe.go
--   Api/Pow                   internal/api/handlers/pow.go
--   Providers/Challenge       internal/providers/lyricsplus.go: Issuer, Verifier
--   Providers/Vandalism       internal/providers/lyricsplus.go: IsVandalismUpdate
--   Api/Client                internal/api/middleware/middleware.go: IsHealthPath, ClientIP
--   Api/Limit                 internal/api/middleware/middleware.go: the rate limiter
--   Api/Gate                  internal/api/middleware/middleware.go: ConcurrencyLimiter
--   Api/Scraping              internal/api/middleware/external_scraping.go
--   Api/Admin                 internal/api/middleware/admin_auth.go, over golang-jwt
--   Storage/Resting           internal/storage/store.go: the circuit breaker over the database
--   Storage/WriteQueue        internal/storage/writequeue.go
--   Providers/Accounts        internal/providers/accounts.go
--   Providers/QqCrypto        internal/providers/qqmusic_crypto.go, over the decoders of encoding/hex,
--                             compress/zlib and compress/flate
--   Service, Service/Lookup   internal/service/service.go: FetchLyrics (Service/Remembered: over
--                             Storage/MemoryCache)
--   Similarity                internal/similarity/similarity.go: levenshteinDistance
--   Tests/                    runs on concrete inputs, and each theorem at one of them
-- The files below a component hold its proofs.
--
-- State is passed on explicitly: a method becomes a function from the state to the state and the
-- result, a breaker or limiter that may be nil is an `Option` (the cache, the store and the write
-- queue are taken to be there), the clock's reading is an argument. What runs at the same time is
-- a list of events, in any order; a lock makes one event of what it guards. The packages
-- golang.org/x/sync/semaphore and golang-lru are records of operations with their documented
-- behaviour, and Tests/ has an instance of each. The service calls the cache through the interface
-- `Memory`, which has no laws and which Storage/MemoryCache fills. The decoders of the packages
-- compress and encoding, encoding/json, golang-jwt, google/uuid, SHA-256, net.SplitHostPort, the
-- parsing and comparing of addresses, patterns and letter case, and the float64 computation of an
-- LRC fraction are function parameters, which the definitions take as arguments.
--
-- Fuel: the loop of `Set` that makes room takes the number of entries, and each of its rounds
-- takes one away; the doubling of a cooldown takes one round for each trip but the first; the
-- decimal printing takes 20 digits, enough for every int64; `Submit` takes its rounds, of which
-- the first makes room and the second sends. A race that is given too few events is still waiting.
--
-- Not modelled: metrics, logs, the timers that end a phase (a fetch that they cut short is an
-- event), the other HTTP handlers and the routes, raw lookups, the SQLite store and its files, the
-- other parsers, the providers' clients, the command line tools.
pub mod Api
pub mod Common
pub mod Domain
pub mod Orchestrator
pub mod Parsers
pub mod Providers
pub mod Service
pub mod Similarity
pub mod Storage
pub mod Tests
