-- ===== src/Featureflags.antt =====
-- featureflags/: role-scoped flags, and the store that caches them for a time. Times are
-- nanoseconds; `last_refreshed` is 0 before the first refresh.
pub mod Laws
pub mod Rows
pub mod Serving
use omkit_go.Prelude.{
  String, Bool, true, false, not, ◌||◌, Option, none, some, List, [], ◌∷◌, Map, lookup, erase,
  contains, if◌then◌else◌, ◌==◌,
}
use omkit_go.Prelude.Int.{ℤ, pos, negsuc, ◌-ℤ◌, ltb_ℤ}
use omkit_go.Context.{Context, roles_of}
use omkit_go.Auth.{role_admin, role_support, role_user}

pub record Flag : Type 0 where
  pub enabled : Bool
  pub roles : List String

unfoldable pub is_known : String → Bool
is_known r = contains r (role_admin ∷ role_support ∷ role_user ∷ [])

unfoldable pub validate_roles : List String → String
unfolding is_known
validate_roles [] = ""
validate_roles (r ∷ rs) = if is_known r then validate_roles rs else r

-- The two loops of Allowed.
pub intersects : List String → List String → Bool
intersects [] flag_roles = false
intersects (cr ∷ rest) flag_roles = contains cr flag_roles || intersects rest flag_roles

is_empty : List String → Bool
is_empty [] = true
is_empty (x ∷ xs) = false

pub allowed_flag : Context → Flag → Bool
unfolding intersects is_empty
allowed_flag ctx flag =
    if not flag.enabled
    then false
    else if is_empty (roles_of ctx) || is_empty flag.roles
    then false
    else intersects (roles_of ctx) flag.roles

-- Allowed; `get` is the method of the store.
unfoldable pub allowed : Context → (String → Option Flag) → String → Bool
unfolding allowed_flag
allowed ctx get key = elim (get key) [ none ↦ false | some flag ↦ allowed_flag ctx flag ]

-- PostgresStore. The pointer is never nil after NewStoreWithRefresher.
pub record PostgresStore : Type 0 where
  pub ttl : ℤ
  pub flags : Map Flag
  pub last_refreshed : ℤ

unfoldable pub new_store_with_refresher : ℤ → PostgresStore
new_store_with_refresher ttl = record { ttl = ttl; flags = []; last_refreshed = pos 0 }

is_zero : ℤ → Bool
is_zero (pos n) = not (ltb_ℤ (pos 0) (pos n))
is_zero (negsuc n) = false

unfoldable pub stale : ℤ → PostgresStore → Bool
unfolding is_zero
stale now s = if is_zero s.last_refreshed then true else ltb_ℤ s.ttl (now -ℤ s.last_refreshed)

-- Refresh, with what the refresher returns: `none` is an error. The second result says whether
-- Refresh returns an error.
unfoldable pub refresh : Option (Map Flag) → ℤ → PostgresStore → PostgresStore × Bool
refresh none now s = (s, true)
refresh (some m) now s = (record s { flags = m; last_refreshed = now }, false)

-- Get: the flag of the snapshot, and whether a refresh is started.
unfoldable pub get : ℤ → PostgresStore → String → Option Flag × Bool
get now s key = (lookup key s.flags, stale now s)

unfoldable pub invalidate : String → PostgresStore → PostgresStore
invalidate key s = record s { flags = erase key s.flags }

-- AllFlags: the snapshot, and whether a refresh is started.
unfoldable pub all_flags : ℤ → PostgresStore → Map Flag × Bool
all_flags now s = (s.flags, stale now s)
