-- ===== src/Tenant/Cache.antt =====
-- uidCache of tenant/tenant.go. Times and durations are nanoseconds. A call of `get` reads the
-- clock before the entry is read, and again under the write lock before it is evicted; nothing
-- else touches the cache in between.
use Prim.Native.String
use omkit_go.Prelude.{String, Bool, none, some, [], Map, lookup, insert, erase, if◌then◌else◌}
use omkit_go.Prelude.Int.{ℤ, pos, ◌+ℤ◌, leb_ℤ, ltb_ℤ}

pub record CacheEntry : Type 0 where
  pub tenant_id : String
  pub expires : ℤ

pub record UidCache : Type 0 where
  pub entries : Map CacheEntry
  pub ttl : ℤ

-- Five minutes where the configured duration is not positive.
unfoldable pub new_uid_cache : ℤ → UidCache
new_uid_cache ttl = record {
  entries = [];
  ttl = if leb_ℤ ttl (pos 0) then pos 300_000_000_000 else ttl;
}

unfoldable pub cache_key : String → String → String
cache_key source auth_uid = String.◌++◌ source (String.◌++◌ ":" auth_uid)

-- `now.After(e.expires)`
abbrev pub is_expired : CacheEntry → ℤ → Bool
is_expired e now = ltb_ℤ e.expires now

-- The second half of `get`, under the write lock.
unfoldable pub evict : String → ℤ → UidCache → UidCache
evict key now c = elim (lookup key c.entries) [
  | none ↦ c
  | some cur ↦ if is_expired cur now then record c { entries = erase key c.entries } else c
]

unfoldable pub get : String → String → ℤ → ℤ → UidCache → UidCache × String
unfolding evict
get source auth_uid now now' c =
    let key = cache_key source auth_uid in
    elim (lookup key c.entries) [
      | none ↦ (c, "")
      | some entry ↦ if is_expired entry now then (evict key now' c, "") else (c, entry.tenant_id)
    ]

unfoldable pub set : String → String → String → ℤ → UidCache → UidCache
set source auth_uid tenant_id now c = record c {
  entries =
      insert (cache_key source auth_uid) (record { tenant_id = tenant_id; expires = now +ℤ c.ttl })
        c.entries;
}
