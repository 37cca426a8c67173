-- ===== src/Sessions/Factory.antt =====
-- sessions/factory.go: which backend the environment selects. The environment is a function from
-- names to values, "" where a variable is not set.
use Prim.Native.String
use omkit_go.Prelude.{String, Bool, Option, none, some, if◌then◌else◌, ◌==◌}
use omkit_go.Prelude.Int.{pos}
use omkit_go.Sessions.Redis.{RedisConfig, new_redis_store}

pub data Backend : Type 0 where
  backend_postgres backend_redis : Backend

-- `none` is the error of an unknown backend.
unfoldable pub backend_from_env : (String → String) → Option Backend
backend_from_env getenv =
    let v = getenv "OMUR_SESSION_BACKEND" in
    if v == ""
    then some backend_postgres
    else if v == "postgres"
    then some backend_postgres
    else if v == "redis"
    then some backend_redis
    else none

unfoldable pub env_or : (String → String) → String → String → String
env_or getenv k default = let v = getenv k in if v == "" then default else v

-- The store that New constructs; the ping of Redis may fail.
pub data Built : Type 0 where
  postgres_store : Built
  redis_store : RedisConfig → Built
  no_store : Built

unfoldable pub new : (String → String) → (pool ping : Bool) → Built
unfolding backend_from_env
new getenv pool ping = elim (backend_from_env getenv) [
  | none ↦ no_store
  | some backend_postgres ↦ if pool then postgres_store else no_store
  | some backend_redis ↦
      let cfg : RedisConfig = record {
        addr =
            String.◌++◌ (getenv "VALKEY_HOST")
              (String.◌++◌ ":" (env_or getenv "VALKEY_PORT" "6379"));
        password = getenv "VALKEY_PASSWORD";
        db = pos 0;
        key_prefix = "";
      } in
      elim (new_redis_store ping cfg) [ none ↦ no_store | some store ↦ redis_store store ]
]
