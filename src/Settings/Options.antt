-- ===== src/Settings/Options.antt =====
-- New of settings/manager.go with its options, and GetAll.
use omkit_go.Prelude.{String, Bool, true, false, List, [], ◌∷◌, Map}
use omkit_go.Prelude.Int.{ℤ, pos}
use omkit_go.Settings.{Manager, backend_postgres, backend_redis, zero_time, interval_or_default}

pub data ManagerOption : Type 0 where
  with_valkey : ManagerOption
  with_cache with_service with_tenant_id : String → ManagerOption
  with_poll_interval : ℤ → ManagerOption

unfoldable pub apply_option : ManagerOption → Manager → Manager
apply_option with_valkey m = record m { valkey = true }
apply_option (with_cache path) m = record m { cache_path = path }
apply_option (with_service name) m = record m { service = name }
apply_option (with_tenant_id id) m = record m { tenant_id = id }
apply_option (with_poll_interval d) m = record m { poll_interval = d }

unfoldable pub apply_options : List ManagerOption → Manager → Manager
apply_options [] m = m
apply_options (o ∷ os) m = apply_options os (apply_option o m)

-- No option sets the backend: a Valkey address selects Redis.
unfoldable pub new : (db : Bool) → List ManagerOption → Manager
unfolding apply_options apply_option
new db opts =
    let m = apply_options opts (record {
      cache = [];
      listeners = [];
      cache_path = "";
      db = db;
      valkey = false;
      tenant_id = "";
      service = "";
      poll_interval = pos 0;
      poll_last_seen = zero_time;
      backend = backend_postgres;
      stopped = false;
    }) in
    record m {
      backend = elim m.valkey [ true ↦ backend_redis | false ↦ backend_postgres ];
      poll_interval = interval_or_default m.poll_interval;
    }

-- A copy of the cache.
unfoldable pub get_all : Manager → Map String
get_all m = m.cache
