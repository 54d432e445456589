-- ===== src/Lib.antt =====
-- Notifyx: a model of the backend, with the theorems that make it correct.
--
-- A request reaches a handler (backend/internal/api/handlers), which validates it, checks that the
-- tenant has the channel enabled, renders its template (backend/internal/template), claims its
-- idempotency key (backend/internal/dedup), asks the rate limiter (backend/internal/ratelimit), and
-- persists a notification with its delivery row and publishes a message to the channel's Kafka
-- topic in one transaction. Consumers (backend/internal/kafka/consumers) take the messages, call
-- the providers with retries, and record the result, or publish to the dead letter queue. The
-- scheduler (backend/internal/scheduler) publishes scheduled notifications when they are due; the
-- replayer (backend/internal/ratelimit/replayer.go) publishes those that were held back.
--
-- The files:
--   Prelude: Boolean tests, lists, Go's errors and results, and its 64-bit integers.
--   Config: backend/config/config.go; Server: backend/cmd/server/main.go.
--   Domain: backend/internal/domain and backend/internal/kafka/message.go.
--   Redis: what the program uses of Redis, as interfaces with their laws, and stores in memory
--     that fill them: Redis/Sets (sorted sets), Redis/Strings, Redis/Lists.
--   Postgres: the tables, the world around the program and WithTx; Postgres/Notifications,
--     Deliveries, Scheduled, Tenants, Settings, Templates and Reports are the repositories of
--     backend/internal/repository/postgres, Postgres/Pages is GetByTenantID of notification_repo.go;
--     Postgres/References is about the foreign keys of backend/migrations.
--   Ratelimit: limiter.go (slidingWindowScript, Allow); Ratelimit/Replayer: replayer.go.
--   Dedup: dedup.go (reserveScript, Reserve, Release).
--   Template: render.go.
--   Kafka: Publish of producer.go; Kafka/Consumers: Run and handleWithRetry of consumer.go;
--     Kafka/Consumers/Channels: email.go, sms.go, push.go, inapp.go and dlq.go.
--   Scheduler: scheduler.go.
--   Handlers: notification.go: Handlers/Requests (the Validate methods), Handlers/Pipeline
--     (processSend, createAndQueue), Handlers/Notifications (Send, Schedule, Batch, Get).
--   Handlers/History: History and PaginationParams; Handlers/Health: HealthHandler of common.go.
--   Handlers/Tenants: tenant.go and apikey.go, with the settings and Analytics in
--     Handlers/Tenants/Settings; Handlers/Templates: template.go.
--   Handlers/Auth: middleware/auth.go.
--   Ws: ws/hub.go; Ws/Connect: Connect of ws/handler.go.
--   OfflineQueue: backend/internal/offlinequeue and backend/internal/presence.
--   Providers: backend/internal/channels: the clients of Resend, Fast2SMS and FCM.
--   System: runs of the whole backend as sequences of steps: System/Lifecycle (the notifications),
--     System/Integrity (with the requests of administrators), whose parts are runs of repository
--     writes (Upkeep, Administration, Operation, Background,
--     Consumption).
--   Tests: concrete states, on which the theorems are applied.
--
-- A function of the program that does I/O is a function from a World to a result and a World. The
-- World holds the tables, the published messages, what the providers accepted, the state of Redis,
-- and how many calls to the outside were made. The Env says of each call whether it fails, the time
-- and the UUID that it gives, and whether the context is cancelled, so a theorem for every Env holds
-- for every pattern of faults. A UUID is its 128-bit value and a time a number of nanoseconds, both
-- natural numbers. A query that fails changes nothing; a transaction is undone if its body or its
-- commit fails, the messages that it published are not.
--
-- The retry loop of a consumer and the loop that fetches a duplicate's original recurse on the
-- number of attempts that may follow, which are the source's constants. The goroutines of a
-- batch, of a scheduler tick and of a replayer tick are run one after the other.
--
-- What the program takes from elsewhere is a parameter: Crypto (random bytes, SHA-256 and their
-- hexadecimal form), Web (what an HTTP request is answered) and Json (what a body says), the reading
-- of UUIDs and times, Querying (the ILIKE of Postgres and the order in which a query gives rows with
-- the same created_at), and the Server of Ws/Connect, which says that the hub
-- and Redis do not share state. A page, a limit and a cap of a request are Go's integers, and the
-- offset of a page wraps around at 64 bits. The operators and the times of Postgres are those of
-- UTC.
--
-- Not modelled: the HTTP framework and its binding of requests, JSON, the Kafka and Postgres
-- drivers, logging, metrics and tracing, which are libraries or calls of them; NewPool, the
-- migrations and the signing of the FCM assertion for the same reason; the ticker loops of the
-- scheduler, the replayer and the cleanup, whose ticks are modelled; the read pump of a connection;
-- and a negative DEFAULT_GLOBAL_CAP, which the table would store as it is.
pub mod Prelude
pub mod Domain
pub mod Redis
pub mod Postgres
pub mod Ratelimit
pub mod Dedup
pub mod Template
pub mod Kafka
pub mod Scheduler
pub mod Handlers
pub mod Config
pub mod Server
pub mod OfflineQueue
pub mod Providers
pub mod Ws
pub mod System
pub mod Tests
