-- ===== src/Tenant.antt =====
-- tenant/tenant.go: the tenant of a request, from the headers, the session cookie and the cache.
-- (`FromContext` and `WithID` stand with the other context keys, in Context.)
pub mod Cache
pub mod CacheLaws
pub mod Trust
pub mod Origin
mod Tests
use omkit_go.Prelude.{
  ℕ, String, Bool, true, false, not, ◌&&◌, ◌||◌, Option, none, some, List, [], ◌∷◌, ◌++◌,
  if◌then◌else◌, ◌==◌,
}
use omkit_go.Prelude.Int.{ℤ}
use omkit_go.Context.{Context, tenant_of, with_tenant_id}
use omkit_go.Headers.{Headers, header}
use Cache.{UidCache, get, set}

pub record AuthDetails : Type 0 where
  pub source : String
  pub auth_uid : String
  pub email : String

-- A resolver's two results: the tenant id, and whether the error is not nil.
abbrev pub Resolved : Type 0
Resolved = String × Bool

-- MiddlewareConfig. The three functions are the caller's; `none` is nil. CacheTTL goes into the
-- cache when the middleware is made.
pub record MiddlewareConfig : Type 0 where
  pub resolve_v2 : Option (String → String → Resolved)
  pub auto_provision_v2 : Option (AuthDetails → Resolved)
  pub service_token : String
  pub session_resolver : Option (String → Resolved)

-- The value of the omur_session cookie, if there is one.
pub record Request : Type 0 where
  pub headers : Headers
  pub session_cookie : Option String

pub data Warning : Type 0 where
  tenant_id_without_token token_missing resolve_failed auto_provision_failed : Warning

pub record Outcome : Type 0 where
  pub cache : UidCache
  pub tenant : String
  pub warnings : List Warning

-- The clock readings of one call: before the cache is read, before an entry is evicted, and before
-- one is written.
pub record Clock : Type 0 where
  pub read : ℤ
  pub evict : ℤ
  pub write : ℤ

abbrev pub source : String
source = "zitadel"

abbrev warn_if : Bool → Warning → List Warning
warn_if true w = w ∷ []
warn_if false w = []

-- Step 2. `none` goes on to step 3.
pub from_session : Option (String → Resolved) → Option String → Option String
from_session none c = none
from_session (some f) none = none
from_session (some f) (some v) =
    let (tid, failed) = f v in
    if not (v == "") && (not failed && not (tid == "")) then some tid else none

call_resolver : Option (String → String → Resolved) → String → Resolved
call_resolver none uid = ("", false)
call_resolver (some f) uid = f source uid

-- Without a provisioner `tid` and `err` stay what the resolver has left.
call_provisioner : Option (AuthDetails → Resolved) → AuthDetails → Resolved → Resolved
call_provisioner none d before = before
call_provisioner (some f) d before = f d

module _ (cfg : MiddlewareConfig) where
  -- `r.Header.Get("X-Service-Token") == cfg.ServiceToken`, where one is configured.
  unfoldable pub trusted : Request → Bool
  trusted r = cfg.service_token == "" || header r.headers "X-Service-Token" == cfg.service_token

  -- From the resolver to the return of the tenant that it and the provisioner find.
  look_up : Clock → Request → String → UidCache → Outcome
  unfolding call_resolver call_provisioner
  look_up t r uid cache =
      let (tid, failed) = call_resolver cfg.resolve_v2 uid in
      let details : AuthDetails = record {
        source = source;
        auth_uid = uid;
        email = header r.headers "X-Auth-Request-Email";
      } in
      let (tid', failed') = call_provisioner cfg.auto_provision_v2 details (tid, failed) in
      let found = if tid == "" then tid' else tid in
      record {
        cache = if found == "" then cache else set source uid found t.write cache;
        tenant = found;
        warnings =
            warn_if failed resolve_failed ++ warn_if (tid == "" && failed') auto_provision_failed;
      }

  -- Step 3, from the test of the cache on.
  by_uid : Clock → Request → String → UidCache → Outcome
  unfolding look_up
  by_uid t r uid cache =
      let (cache', cached) = get source uid t.read t.evict cache in
      if cached == ""
      then look_up t r uid cache'
      else record { cache = cache'; tenant = cached; warnings = [] }

  pub by_header : Clock → Request → UidCache → Outcome
  unfolding by_uid
  by_header t r cache =
      let uid = header r.headers "X-Auth-Request-User" in
      if uid == ""
      then record { cache = cache; tenant = ""; warnings = [] }
      else if trusted r
      then by_uid t r uid cache
      else record { cache = cache; tenant = ""; warnings = token_missing ∷ [] }

  unfoldable pub resolve_tenant : Clock → Request → UidCache → Outcome
  resolve_tenant t r cache =
      let tid = header r.headers "X-Tenant-ID" in
      if not (tid == "")
      then (if trusted r
          then record { cache = cache; tenant = tid; warnings = [] }
          else record { cache = cache; tenant = ""; warnings = tenant_id_without_token ∷ [] })
      else elim (from_session cfg.session_resolver r.session_cookie) [
        | some found ↦ record { cache = cache; tenant = found; warnings = [] }
        | none ↦ by_header t r cache
      ]

  -- The context that Middleware passes on, and the cache that it keeps.
  unfoldable pub middleware : Clock → Request → Context → UidCache → Context × UidCache
  middleware t r ctx cache =
      let o = resolve_tenant t r cache in
      (if o.tenant == "" then ctx else with_tenant_id ctx o.tenant, o.cache)

-- Require: the tenant id, and the status that it writes.
unfoldable pub require_tenant : Context → String × Option ℕ
require_tenant ctx = let tid = tenant_of ctx in (tid, if tid == "" then some 401 else none)
