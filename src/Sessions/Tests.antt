-- ===== src/Sessions/Tests.antt =====
-- The theorems on sessions, over two calls of Put and one of Delete.
use omkit_go.Prelude.{
  String, ◌≡◌, ◌≢◌, ◌↔◌, true, false, none, some, List, [], ◌∷◌, Map, insert, erase, lookup, inl,
  arith, refl, eq_iff, if◌then◌else◌, ◌==◌, All,
}
use omkit_go.Prelude.Int.{pos, ltb_ℤ, ◌+ℤ◌, +ℤ_parts, ◌-ℤ◌, ◌<ℤ◌, ◌≤ℤ◌, max_int64}
use omkit_go.Sessions.{Session, Columns, superuser, found, not_found, put, get_for_tenant, list}
use omkit_go.Sessions.Access.{get_for_tenant_iff, put-taken}
use omkit_go.Sessions.Backends.{postgres-replay, redis-replay}
use omkit_go.Sessions.Factory.{new, env_or, redis_store}
use omkit_go.Sessions.PostgresBackend.{postgres}
use omkit_go.Sessions.Listing.{Lives, Newest, ListsLive, list-Lists}
use omkit_go.Sessions.Redis as Redis
use omkit_go.Sessions.RedisBackend.{redis, Counts, Clear}
use omkit_go.Sessions.Refinement.{Call, stored, deleted, replay, visible, seen, run}

abbrev as_given : Columns
as_given = record { uuid = λ t. some t; json = λ p. some p; timestamp = λ t. t }

abbrev ann : Session
ann = record {
  token = "t1";
  tenant_id = "acme";
  payload = "{}";
  created_at = pos 0;
  expires_at = pos 50;
}

abbrev bob : Session
bob = record {
  token = "t2";
  tenant_id = "umbra";
  payload = "[]";
  created_at = pos 0;
  expires_at = pos 60;
}

abbrev owner : String → String
owner token = if token == "t1" then "acme" else "umbra"

abbrev calls : List Call
calls = stored (pos 1) ann ∷ stored (pos 2) bob ∷ deleted "t2" ∷ []

postgres-replay_example :
    seen (
      (postgres as_given).get
        (pos 9)
        "t1"
        (run (postgres as_given) calls (postgres as_given).empty))
    ≡ visible (pos 9) "t1" (replay calls [])
postgres-replay_example =
    postgres-replay as_given owner calls (pos 9) "t1"
      ((refl, refl, refl, refl), ((refl, refl, refl, refl), (tt, tt)))

-- A server that keeps the two sessions under their tokens, each 5 nanoseconds too long.
abbrev server : Redis.Server
server = record {
  marshal = λ s. some s.token;
  unmarshal = λ b. if b == "t1" then some ann else if b == "t2" then some bob else none;
  live = λ t ttl now. ltb_ℤ now ((t +ℤ ttl) +ℤ pos 5);
}

in_range : (pos 50 -ℤ pos 1 ≤ℤ max_int64) × (pos 60 -ℤ pos 2 ≤ℤ max_int64)
unfolding ◌-ℤ◌
in_range = (omega arith, omega arith)

server-Counts : Counts server 5
server-Counts = record {
  kept = λ t ttl now h k. ground (arith, k, +ℤ_parts now (pos 5), +ℤ_parts (t +ℤ ttl) (pos 5));
  gone = λ t ttl now h k. ground (arith, k, +ℤ_parts (t +ℤ ttl) (pos 5));
}

long_before : Clear 5 (pos 9) (lookup "t1" (replay calls []))
unfolding replay lookup insert erase ◌+ℤ◌
long_before = inl (omega arith)

redis-replay_example :
    seen (
      (redis server "s:").get
        (pos 9)
        "t1"
        (run (redis server "s:") calls (redis server "s:").empty))
    ≡ visible (pos 9) "t1" (replay calls [])
redis-replay_example =
    redis-replay server "s:" 5 calls (pos 9) "t1" server-Counts
      (
        (omega arith, in_range.0, ("t1", refl, refl)),
        ((omega arith, in_range.1, ("t2", refl, refl)), (tt, tt)),
      )
      long_before

acme_named : ◌≢◌ {A = String} "acme" ""
acme_named e = ground (arith, (eq_iff "acme" "").1 e)

umbra_named : ◌≢◌ {A = String} "umbra" ""
umbra_named e = ground (arith, (eq_iff "umbra" "").1 e)

acme_umbra : ◌≢◌ {A = String} "acme" "umbra"
acme_umbra e = ground (arith, (eq_iff "acme" "umbra").1 e)

abbrev table : Map Session
table = ("t1", ann) ∷ []

get_for_tenant_iff_example :
    (get_for_tenant superuser false (pos 9) "t1" "acme" table ≡ found ann) ↔ (
      (false ≡ false)
      × (superuser ≡ superuser)
      × (lookup "t1" table ≡ some ann)
      × (◌≡◌ {A = String} "acme" "acme")
      × (pos 9 <ℤ pos 50))
get_for_tenant_iff_example =
    get_for_tenant_iff superuser false (pos 9) "t1" "acme" table ann acme_named

at_t1 : lookup "t1" table ≡ some ann
unfolding lookup
at_t1 = refl

abbrev thief : Session
thief = record bob { token = "t1" }

put-taken_example :
    ((put as_given superuser none (pos 5) thief table).1 ≡ false)
    × (lookup "t1" (put as_given superuser none (pos 5) thief table).0
        ≡ some (record ann { payload = "[]"; expires_at = pos 60 }))
    × (get_for_tenant superuser false
          (pos 6)
          "t1"
          "umbra"
          (put as_given superuser none (pos 5) thief table).0
        ≡ not_found)
put-taken_example =
    put-taken as_given (pos 5) (pos 6) thief ann table refl refl at_t1 acme_umbra umbra_named

abbrev environment : String → String
environment k =
    if k == "OMUR_SESSION_BACKEND" then "redis" else if k == "VALKEY_HOST" then "cache" else ""

default_port :
    new environment false true
    ≡ redis_store
        (record { addr = "cache:6379"; password = ""; db = pos 0; key_prefix = "omur:session:" })
unfolding new env_or Redis.new_redis_store Redis.default_prefix
default_port = refl

abbrev both : Map Session
both = ("t1", ann) ∷ ("t3", record ann { token = "t3"; created_at = pos 4 }) ∷ []

first_of_both : lookup "t1" both ≡ some ann
unfolding lookup
first_of_both = refl

list-Lists_example :
    let listed = list as_given none (pos 9) "acme" both in
    (listed.1 ≡ false)
    × All (Lives (pos 9) "acme") listed.0
    × Newest listed.0
    × ListsLive (pos 9) "acme" (lookup "t1" both) listed.0
list-Lists_example = list-Lists as_given (pos 9) "acme" "t1" both refl
