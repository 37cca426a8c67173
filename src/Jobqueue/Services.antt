-- ===== src/Jobqueue/Services.antt =====
-- jobqueue/server.go, jobqueue/inspector.go and jobqueue/scheduler.go: what the constructors give to
-- asynq.
use omkit_go.Prelude.{ℕ, String, Option, none, some, [], ◌∷◌, Map}
use omkit_go.Prelude.Int.{ℤ}
use omkit_go.Jobqueue.Enqueue.{Config, ConfigError, validate, workers}

pub record RedisClientOpt : Type 0 where
  pub addr : String
  pub password : String

unfoldable pub redis_of : Config → RedisClientOpt
redis_of c = record { addr = c.addr; password = c.password }

-- asynq.Config, with the queues and their priorities.
pub record ServerConfig : Type 0 where
  pub concurrency : ℤ
  pub queues : Map ℕ
  pub shutdown_timeout : ℤ

pub data Built (A : Type 0) : Type 0 where
  built : A → Built A
  refused : ConfigError → Built A

abbrev build : {A : Type 0} → Option ConfigError → A → Built A
build none a = built a
build (some e) a = refused e

unfoldable pub new_server : Config → Built (RedisClientOpt × ServerConfig)
unfolding redis_of validate
new_server c = build (validate c) (
  redis_of c,
  record {
    concurrency = workers c;
    queues = (c.queue_name, 1) ∷ [];
    shutdown_timeout = c.shutdown_timeout;
  },
)

unfoldable pub new_scheduler : Config → Built RedisClientOpt
unfolding redis_of validate
new_scheduler c = build (validate c) (redis_of c)

unfoldable pub new_inspector : Config → Built RedisClientOpt
unfolding redis_of validate
new_inspector c = build (validate c) (redis_of c)
