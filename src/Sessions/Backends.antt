-- ===== src/Sessions/Backends.antt =====
-- The contract of Store in sessions/store.go over its two stores.
use omkit_go.Prelude.{ℕ, String, ◌≡◌, List, [], All, lookup}
use omkit_go.Prelude.Int.{ℤ}
use omkit_go.Sessions.Refinement.{Call, replay, visible, seen, run, Admits, get-replay}
use omkit_go.Sessions.PostgresBackend.{postgres, Storable, postgres-Refines}
use omkit_go.Sessions.RedisBackend.{redis, Cacheable, Clear, Counts, redis-Refines}
use omkit_go.Sessions.{Columns}
use omkit_go.Sessions.Redis as Redis

-- After any calls of Put and Delete that succeed, where each stored session is one that the columns
-- keep as it is and is of the tenant that owns its token, Get of the Postgres store on a pool that
-- bypasses row security shows the tenant, payload and expiry last stored under the token, unless
-- it was deleted since or has expired, in which case it shows no session.
pub postgres-replay :
    (cols : Columns) (owner : String → String) (cs : List Call) (now : ℤ) (token : String)
    → All (Admits (Storable cols owner)) cs
    → seen ((postgres cols).get now token (run (postgres cols) cs (postgres cols).empty))
      ≡ visible now token (replay cs [])
postgres-replay cols owner cs now token h =
    get-replay (postgres-Refines cols owner) cs now token h tt

-- After any calls of Put and Delete that succeed, where each stored session has not expired when it
-- is stored, nor expires later than an int64 of nanoseconds from then, and decodes to itself, and
-- the server keeps a key for its lifetime give or take `slack` nanoseconds, Get of the Redis store,
-- not within `slack` of the expiry last stored under the token, shows the tenant, payload and expiry
-- that were last stored, unless the token was deleted since or has expired.
pub redis-replay :
    (server : Redis.Server) (prefix : String) (slack : ℕ) (cs : List Call) (now : ℤ)
    (token : String)
    → Counts server slack
    → All (Admits (Cacheable server)) cs
    → Clear slack now (lookup token (replay cs []))
    → seen (
        (redis server prefix).get now token
          (run (redis server prefix) cs (redis server prefix).empty))
      ≡ visible now token (replay cs [])
redis-replay server prefix slack cs now token counts h c =
    get-replay (redis-Refines server prefix slack counts) cs now token h c
