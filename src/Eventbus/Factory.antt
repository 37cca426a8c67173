-- ===== src/Eventbus/Factory.antt =====
-- eventbus/factory.go: which backend the environment selects. The environment is a function from
-- names to values, "" where a variable is not set.
use Prim.Native.String
use omkit_go.Prelude.{String, Bool, Option, none, some, if◌then◌else◌, ◌==◌}
use omkit_go.Prelude.Int.{pos}
use omkit_go.Eventbus.{PostgresConfig, new_postgres_bus}
use omkit_go.Eventbus.RedisBus.{RedisConfig}

pub data Backend : Type 0 where
  backend_postgres backend_redis : Backend

-- `none` is the error of an unknown backend.
unfoldable pub backend_from_env : (String → String) → Option Backend
backend_from_env getenv =
    let v = getenv "OMUR_EVENTBUS_BACKEND" in
    if v == ""
    then some backend_postgres
    else if v == "postgres"
    then some backend_postgres
    else if v == "redis"
    then some backend_redis
    else none

-- The configuration of the bus that New constructs, or `no_bus` with an error.
pub data Built : Type 0 where
  postgres_bus : PostgresConfig → Built
  redis_bus : RedisConfig → Built
  no_bus : Built

abbrev or_default_port : String → String
or_default_port port = if port == "" then "6379" else port

-- `pool` is whether the pool is not nil.
unfoldable pub new : (String → String) → (pool : Bool) → (consumer_name : String) → Built
unfolding backend_from_env
new getenv pool consumer_name = elim (backend_from_env getenv) [
  | none ↦ no_bus
  | some backend_postgres ↦
      if pool
      then postgres_bus (
          new_postgres_bus
            (record { consumer_name = consumer_name; poll_interval = pos 0; batch_size = pos 0 }))
      else no_bus
  | some backend_redis ↦ redis_bus (record {
    addr =
        String.◌++◌ (getenv "VALKEY_HOST")
          (String.◌++◌ ":" (or_default_port (getenv "VALKEY_PORT")));
    password = getenv "VALKEY_PASSWORD";
    stream_prefix = "";
    consumer_name = consumer_name;
    group = consumer_name;
  })
]
