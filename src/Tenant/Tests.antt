-- ===== src/Tenant/Tests.antt =====
-- The theorems on the middleware and its cache, at one configuration.
use Prim.Native.String
use omkit_go.Prelude.{
  String, ◌≡◌, sym, ap, ◌⊎◌, Bool, true, false, none, some, [], ◌∷◌, lookup, arith, eq_iff, ◌≢◌,
  ◌↔◌,
}
use mathlib.Core.Option.{some-injective}
use omkit_go.Prelude.Int.{pos}
use omkit_go.Headers.{header}
use omkit_go.Tenant.Cache.{UidCache}
use omkit_go.Tenant.Trust.{resolve_tenant-untrusted, GivesTenant}
use omkit_go.Tenant.Origin.{IsSound, Holds, resolve_tenant-Holds}
use omkit_go.Tenant.{source, MiddlewareConfig, Request, Clock, from_session, resolve_tenant}

abbrev cache : UidCache
cache = record {
  entries = ("zitadel:u1", record { tenant_id = "acme"; expires = pos 500 }) ∷ [];
  ttl = pos 300;
}

abbrev t : Clock
t = record { read = pos 100; evict = pos 101; write = pos 102 }

-- The resolver knows no user and fails; there is no provisioner.
abbrev cfg : MiddlewareConfig
cfg = record {
  resolve_v2 = some (λ s u. ("", true));
  auto_provision_v2 = none;
  service_token = "secret";
  session_resolver = none;
}

abbrev forged : Request
forged = record { headers = ("X-Tenant-ID", "acme") ∷ []; session_cookie = none }

no_token : header forged.headers "X-Service-Token" ≢ "secret"
unfolding header lookup
no_token e = ground (arith, e, eq_iff "" "secret")

resolve_tenant-untrusted_example :
    (((resolve_tenant cfg t forged cache).tenant ≡ "acme") ↔ (
      (header forged.headers "X-Tenant-ID" ≡ "")
      × GivesTenant cfg.session_resolver forged.session_cookie "acme"))
    × ((resolve_tenant cfg t forged cache).cache ≡ cache)
resolve_tenant-untrusted_example =
    resolve_tenant-untrusted cfg t forged cache "acme" (λ e. ground (arith, e, eq_iff "secret" ""))
      no_token (λ e. ground (arith, e, eq_iff "acme" ""))

abbrev browser : Request
browser = record {
  headers = ("X-Auth-Request-User", "u9") ∷ ("X-Service-Token", "secret") ∷ [];
  session_cookie = none;
}

-- Every user's tenant is named after the user.
abbrev Named : String → String → Type 0
Named uid tid = tid ≡ String.◌++◌ "t-" uid

abbrev naming : MiddlewareConfig
naming = record cfg { resolve_v2 = some (λ s u. (String.◌++◌ "t-" u, false)) }

abbrev named_cache : UidCache
named_cache = record { entries = []; ttl = pos 300 }

naming-IsSound : IsSound Named naming
naming-IsSound = record {
  resolver = λ f uid e n.
      ap (λ (g : String → String → String × Bool). (g source uid).0)
        (sym (some-injective (λ s u. (String.◌++◌ "t-" u, false)) f e));
  provisioner = λ f d e n. absurd (ground (arith, e));
}

named_cache-Holds : Holds Named named_cache
unfolding lookup
named_cache-Holds uid e h = cc

resolve_tenant-Holds_example :
    Holds Named (resolve_tenant naming t browser named_cache).cache
    × (((resolve_tenant naming t browser named_cache).tenant ≡ header browser.headers "X-Tenant-ID")
        ⊎ ((from_session naming.session_resolver browser.session_cookie
              ≡ some (resolve_tenant naming t browser named_cache).tenant)
            ⊎ (((resolve_tenant naming t browser named_cache).tenant ≡ "")
                ⊎ Named
                    (header browser.headers "X-Auth-Request-User")
                    (resolve_tenant naming t browser named_cache).tenant)))
resolve_tenant-Holds_example =
    resolve_tenant-Holds Named naming t browser named_cache naming-IsSound named_cache-Holds
