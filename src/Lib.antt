-- ===== src/Lib.antt =====
-- Verification of the authentication core of the NestJS template.
--
-- The program is an HTTP service: providers under src/modules answer requests over PostgreSQL tables
-- (TypeORM repositories), a Redis store and an activity log. Here a provider is a function from the
-- shared state `World` to a result or a failure and the next state (`Action`, Common/Effects); an
-- `await` is a step of a do block, a thrown error response is `err (http status key)`. A request runs
-- at one instant and is not interleaved with others.
--
-- Parts, with the code that they model:
--   Common       lists, options, tests and the `Action` monad that all parts share
--   State        the tables as lists of records (src/modules/*/entities), the log, the outbox; what
--                the code is given from outside (State/Outside: `Env`, `Request`)
--   Hash         src/shared/hash: the stored hash `derived:salt` and its verification
--   Redis        src/shared/redis: the server as a record of commands with its documented laws, and
--                the service's operations; Redis/Memory is a server that satisfies the laws, and
--                Redis/Commands is the whole service over texts
--   Client       src/common/utils: address, user agent, device fingerprint
--   Http         src/shared/response/helpers/error.response.ts, as the providers use it
--   Response     src/shared/response: the envelope of an answer, and the helpers in full
--   Filters      src/common/filters: what becomes of a thrown value, over the tracker of errors
--   Pipes        src/common/pipes: the errors of a DTO as an answer
--   HttpClient   src/shared/http-client: the client of other services, with its retries
--   Cookies      src/shared/cookie
--   Routes       the controllers of src/modules as data: the metadata that the guards and the scan of
--                the routes read, and the method and key of each answer
--   Text         the text functions of JavaScript that several parts use
--   Base         src/common/base: the repository, the template methods of the providers, the pages of
--                a list (Base/Listing, Base/Sorted, Base/Pages) and the answers to errors of the database
--                (Base/Errors, Base/Classified)
--   Users        src/modules/users/providers
--   Jwt, Hibp, RateLimit   src/shared/jwt, src/shared/hibp, src/shared/rate-limit
--   Roles        src/modules/roles/providers; Roles/Discovery and Roles/Sync are
--                sync-admin-permissions.provider.ts, from the scan of the routes to the grants
--   Permissions  src/modules/permissions/providers: the permission keys of a role (Lookup), the
--                permissions themselves (Manage) and the grants of a role (Assign)
--   ErrorTracking   src/modules/error-tracking/providers, over a state of its own
--   ActivityLog  src/modules/activity-log: the log of a request in its two modes, over tables of
--                its own; the snapshot of a value with its redaction (Snapshot) and the decorator of
--                logged methods (SystemLog)
--   Guards       src/modules/auth/guards, in the order in which the application registers them
--   Auth         src/modules/auth/providers: Tokens (refresh-token table), History (login rows),
--                Passwords (password history), Verification (codes), Sessions (Redis sessions and
--                logout), Signin, Refresh, Account (sign-up and password changes), and
--                Handlers, which are auth.controller.ts over them
--   Examples     one concrete environment, and the theorems applied in it
--
-- A provider calls another as in the source: sign-in updates the user through Users, stores its
-- session through Redis, its token through Auth/Tokens and its row through Auth/History; Guards read
-- what Auth/Sessions bans.
--
-- The synchronisation of the administrator role runs through Permissions/Manage and
-- Permissions/Assign, which run through Base.
--
-- Only the loop of `RedisService.scan` (Redis/Scan) runs on fuel, one unit for a round; it is enough
-- when it is at least the rounds of the server's iteration. All other loops run over finite lists or
-- texts. Times are milliseconds in ℕ.
--
-- Not modelled: scrypt, JWT signatures, SHA-1, SHA-256, the Google, breach and mail services,
-- randomness, GeoIP and PostgreSQL's `ILIKE` and `LOWER` (parameters); the Redis server, axios and
-- the retry of rxjs, and the order in which PostgreSQL lists rows (laws); the reflection of the
-- framework (data); the text of SQL queries, transactions, and unique indexes on an update of a
-- row; the handlers of the controllers outside of src/modules/auth, which pass their arguments to
-- one method of a service; DTO validation, query parsing, Swagger, translations, configuration,
-- migrations, mail rendering, storage, the transport of queues and health checks; user lists and
-- avatar uploads; the range of INT columns and the texts with U+0000, which PostgreSQL refuses; the
-- case of letters beyond ASCII (Text); the rows of the system log in a bundle (the log of a request
-- is compared in the tables of requests and of user actions); and which of two passwords that were
-- stored at one instant is the newer (here the later row).
pub mod Common
pub mod Http
pub mod HttpClient
pub mod Response
pub mod Filters
pub mod Pipes
pub mod Hash
pub mod Redis
pub mod State
pub mod Text
pub mod Client
pub mod Base
pub mod Jwt
pub mod Hibp
pub mod Users
pub mod Roles
pub mod Auth
pub mod Permissions
pub mod ActivityLog
pub mod ErrorTracking
pub mod RateLimit
pub mod Guards
pub mod Cookies
pub mod Routes
pub mod Examples
