-- ===== src/Sessions/Redis.antt =====
-- sessions/redis.go: the store on a Redis or Valkey server. The server is a map from keys to items;
-- JSON and the expiry of a key are parameters.
use Prim.Native.String
use omkit_go.Prelude.{
  String, Bool, true, false, Option, none, some, List, [], ◌∷◌, Map, lookup, insert, erase,
  if◌then◌else◌, ◌==◌,
}
use omkit_go.Prelude.Int.{ℤ, pos, ◌-ℤ◌, ltb_ℤ, leb_ℤ, max_int64, min_int64}
use omkit_go.Sessions.{Session, Reply, found, not_found, failed}

-- A value, the client's time of the call that set it, and the lifetime that Put gives to Set.
pub record Item : Type 0 where
  pub value : String
  pub set_at : ℤ
  pub ttl : ℤ

-- encoding/json on a session, and whether a key that was set at a client's time with a
-- positive lifetime is still there at another: what the client library makes of the lifetime and the
-- server of its own clock is in this function.
pub record Server : Type 0 where
  pub marshal : Session → Option String
  pub unmarshal : String → Option Session
  pub live : (set_at ttl now : ℤ) → Bool

unfoldable pub default_prefix : String → String
default_prefix prefix = if prefix == "" then "omur:session:" else prefix

pub record RedisConfig : Type 0 where
  pub addr : String
  pub password : String
  pub db : ℤ
  pub key_prefix : String

-- NewRedisStore: what the store works with; `reached` says whether the server answers a ping.
unfoldable pub new_redis_store : (reached : Bool) → RedisConfig → Option RedisConfig
unfolding default_prefix
new_redis_store reached cfg =
    if reached then some (record cfg { key_prefix = default_prefix cfg.key_prefix }) else none

unfoldable pub key : String → String → String
key prefix token = String.◌++◌ prefix token

-- A lifetime of 0 means that the key has none.
unfoldable pub read_item : Server → ℤ → Option Item → Option String
read_item server now none = none
read_item server now (some item) =
    if leb_ℤ item.ttl (pos 0)
    then some item.value
    else if server.live item.set_at item.ttl now
    then some item.value
    else none

-- GET
unfoldable pub rdb_get : Server → ℤ → String → Map Item → Option String
rdb_get server now k items = read_item server now (lookup k items)

-- What Get makes of the answer.
unfoldable pub reply_of : Server → Option String → Reply
reply_of server none = not_found
reply_of server (some b) = elim (server.unmarshal b) [ none ↦ failed | some s ↦ found s ]

unfoldable pub get : Server → String → (broken : Bool) → ℤ → String → Map Item → Reply
get server prefix broken now token items =
    if broken then failed else reply_of server (rdb_get server now (key prefix token) items)

-- time.Until: a difference out of an int64's range is its nearest end.
unfoldable pub until : ℤ → ℤ → ℤ
until expires_at now =
    let d = expires_at -ℤ now in
    if ltb_ℤ max_int64 d then max_int64 else if ltb_ℤ d min_int64 then min_int64 else d

unfoldable pub ttl_of : ℤ → ℤ → ℤ
unfolding until
ttl_of expires_at now =
    let ttl = until expires_at now in if ltb_ℤ ttl (pos 0) then pos 1_000_000_000 else ttl

unfoldable pub put : Server → String → (broken : Bool) → ℤ → Session → Map Item → Map Item × Bool
put server prefix broken now s items = elim (server.marshal s) [
  | none ↦ (items, true)
  | some b ↦ if broken then (items, true) else (
    insert (key prefix s.token) (record { value = b; set_at = now; ttl = ttl_of s.expires_at now })
        items,
    false,
  )
]

unfoldable pub delete : String → (broken : Bool) → String → Map Item → Map Item × Bool
delete prefix broken token items =
    if broken then (items, true) else (erase (key prefix token) items, false)

-- List over the keys that the iterator of SCAN yields, and whether it ends in an error; a key that
-- cannot be read or decoded is left out.
unfoldable pub list : Server → ℤ → String → List String → Map Item → List Session
list server now tenant_id [] items = []
list server now tenant_id (k ∷ ks) items =
    let rest = list server now tenant_id ks items in
    elim (rdb_get server now k items) [
      | none ↦ rest
      | some b ↦ elim (server.unmarshal b) [
        | none ↦ rest
        | some s ↦ if s.tenant_id == tenant_id then s ∷ rest else rest
      ]
    ]
