-- ===== src/Lib.antt =====
-- omkit-go, the Go service kit of omurlabs: the packages in which the kit makes decisions, as
-- definitions, and theorems on them.
--
-- How the packages hang together. `tenant` and `requestid` put a tenant and a correlation id into
-- a request's context; `httpclient` copies both to outbound requests; `jobqueue` carries both
-- across a queue in an envelope; `scheduler` registers cron entries that enqueue such envelopes;
-- `auth` gives a request its roles, which the `middleware` reads from headers and `featureflags`
-- asks for. `dbpool` opens the connections under which `sessions`, `settings`, `eventbus` and
-- `cleanup` work; the other bus of `eventbus` stands on `valkeystream`. `kms` and `encryption` seal
-- under `crypto`; `quota` records its rows through `dbpool`; `logging` reads the correlation id.
-- `provider`, `valkeysub`, `syncnotifier`, `cost`, `metrics`, `tracing`, `health`, `config` and
-- `security` stand on their own.
--
-- Where to find what (paths from the root of the repository):
--   Context      the context keys of tenant/, requestid/, jobqueue/ and auth/, as one record
--   Headers      http.Header as a map from canonical names
--   Requestid    requestid/requestid.go: WithRequestIDPropagation
--   Httpclient   httpclient/client.go. Breaker: CircuitBreaker. Config: the options and New.
--                Client: PostJSON (post_json), GetJSON (get_json), Do (do_request), NotifyAsync.
--   Jobqueue     jobqueue/. Envelope: envelope.go. Enqueue: task.go, client.go, config.go and
--                EnqueueMiddleware. Worker: WithTenant of server.go, WithEnvelope of correlation.go.
--                QueueMetrics: queue_metrics.go. Services: the constructors over asynq.
--   Scheduler    scheduler/scheduler.go: reconcile and what it calls. Loop: FetchProviders, New,
--                Start and runLoop. Admin: the options, Stop, Entries.
--   Tenant       tenant/tenant.go: the middleware (resolve_tenant, middleware, require_tenant) and
--                its cache (Cache: get, set).
--   Auth         auth/roles.go: RolesFromGroups, HasRole, RequireRole. Audit: auth/audit.go.
--   Featureflags featureflags/: Allowed, ValidateRoles, PostgresStore. Rows: loadFromPool,
--                ParseFromJSON, StaticStore. Serving: Get with tryRefresh, NewPostgresStore.
--   Middleware   middleware/ratelimit.go: IPRateLimiter; middleware/middleware.go: BearerAuth,
--                MustBearerAuth. Cors: CORS. Groups: middleware/admin.go and clientIP. RequestLog:
--                RequestLog.
--   Quota        quota/: CheckUpload, CheckQuery, Load, GetUsage. Record: quota/record.go and the
--                query that counts its rows. Metering: the two sides together. Clock:
--                quota/quota_time.go.
--   Metrics      metrics/metrics.go: the HTTP middleware. Logging: logging/. Tracing:
--                tracing/tracing.go.
--   Health       health/handler.go: Handler, ReadyHandler, ReadyHandlerWithProbes. Command: Mount,
--                LegacyHealthcheck, LegacyHealthcheckPath.
--   Syncnotifier syncnotifier/notifier.go: New, NotifyMetrics, send.
--   Eventbus     eventbus/postgres.go: Publish, PublishTenant, pollOnce. Subscription: Subscribe and
--                Close. RedisBus: eventbus/redis.go. Factory: eventbus/factory.go.
--   Valkeystream valkeystream/stream.go and valkeystream/consumer.go. Valkeysub:
--                valkeysub/subscriber.go. Cost: cost/cost.go.
--   Provider     provider/provider.go: MessageContent and its JSON. Exchange: a POST and its reply.
--                Wire: the JSON of requests. Openai, Anthropic, Ollama: the three clients.
--   Sessions     sessions/postgres.go: Get, GetForTenant, Put, Delete, DeleteForTenant, List. Redis:
--                sessions/redis.go. Factory: sessions/factory.go. Refinement: what a Store promises.
--   Settings     settings/manager.go: New, NewFromConfig, OnChange, ApplyChange, Get, pollOnce,
--                loadFromDB, handleMessage, Stop. Cache: WriteCache, LoadCache, Start. PollLoop:
--                pollLoop.
--   Crypto       crypto/aes_gcm.go: Wrap, Unwrap; crypto/kuser.go: NewKUser, Zero, the self-test.
--   Encryption   encryption/encryption.go: GenerateKey, Encrypt, Decrypt, MaskSecret.
--   Kms          kms/localdev.go. OpenBao: doRaw, do, getToken and login of kms/openbao.go. Transit:
--                its Wrap, Unwrap, WrapDEK, UnwrapDEK, CurrentVersion and DeleteUserKeys.
--   Dbpool       dbpool/pool.go: NewPool, New, NewSessionPool, WithTenant, Superuser,
--                WithPrivilegedRole, WithTenantQuery.
--   Cleanup      cleanup/loop.go: NewLoop, and the ticks of replicas as steps. Run: Run and tick.
--   Config       config/config.go. Security: security/events.go.
--
-- How it is modelled. A method on a pointer returns the new record; a mutex makes a method one
-- step. Times and durations are integers in nanoseconds, which are not wrapped: they stay far below
-- 2 ^ 63. The failures of a breaker grow by one from 0 and are not wrapped. The backoff is an
-- int64 that is doubled modulo 2 ^ 64. A range over a map takes its order from an argument, a list
-- of keys. JSON documents are trees: the text and its parsing are left out. The network, the clock
-- and the database are arguments of a step, so a theorem holds whatever they do.
--
-- What is not under the repository is a parameter: uuid.Parse (is_uuid), the matching of keys in
-- encoding/json (folds, with FoldLaws), asynq's enqueuing (send) and its scheduler (Asynq, with
-- AsynqLaws and IsReliable), the resolvers of a service (MiddlewareConfig, with IsSound), SHA-256
-- and json.Marshal in the hash of a config (digest, marshal), AES-GCM (Aead, with Lawful), HMAC,
-- base64 and the JSON of each package, what the columns of a table make of a value (Columns), how
-- long a Redis server keeps a key (Server, with Counts, which allows for the rounding of the client
-- library and for two clocks), the commands of Redis streams (Redis, with
-- GroupLaws), the OpenBao server and its clock (Env), the servers of model providers and the
-- decoding of their replies (Exchange's Env, Codec), the inspector of asynq, strings.ToLower
-- (to_lower), what a tenant's transaction sees of the usage log (sees), and strings.TrimSpace and
-- net.SplitHostPort (Text). A lease is an int64 product that wraps.
--
-- Termination. Loops are structural recursion: post_loop counts down the attempts that are left,
-- which PostJSON starts at the number of retries, and the loops of reconcile follow their lists.
-- deliver, poll_rows and load_rows follow the rows of a query, which is a finite list. A loop that
-- the source leaves running (runLoop, Subscribe) is a run over the list of what it has met up to
-- some time, and says in its result whether it has returned by then. No function takes fuel.
--
-- The tables of a database are lists or maps, and each SQL statement is the function that it
-- computes on them; a transaction that fails at a step leaves them as they are, a commit that
-- reports an error being taken for one that has not happened. A role that is set in a transaction
-- stays with the connection where it commits. The replicas of a cleanup take their steps in any
-- order; a session is taken to live while a task runs under it.
--
-- Not modelled: Trace of middleware/, which only wraps a handler of otelhttp; the functions of
-- metrics/ that make a vector of the Prometheus client; the text of log lines; accessors and Close
-- methods that only call a library; and scripts/, which writes test data.
pub mod Auth
pub mod Cleanup
pub mod Config
pub mod Context
pub mod Cost
pub mod Crypto
pub mod Dbpool
pub mod Encryption
pub mod Eventbus
pub mod Featureflags
pub mod Headers
pub mod Health
pub mod Httpclient
pub mod Jobqueue
pub mod Kms
pub mod Logging
pub mod Metrics
pub mod Middleware
pub mod Prelude
pub mod Provider
pub mod Quota
pub mod Requestid
pub mod Scheduler
pub mod Security
pub mod Sessions
pub mod Settings
pub mod Syncnotifier
pub mod Tenant
pub mod Tracing
pub mod Valkeystream
pub mod Valkeysub
