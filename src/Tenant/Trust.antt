-- ===== src/Tenant/Trust.antt =====
-- What a request gets with and without the service token.
use omkit_go.Prelude.{
  if◌then◌else◌, ◌==◌, refl, sym, ◌∙◌, ◌↔◌, Option, inl, inr, Bool-cases, Option-cases, String, ◌≡◌,
  ◌≢◌, Bool, true, false, none, some, [], ◌∷◌, arith, eq_iff,
}
use omkit_go.Context.{text_or_empty, Context, tenant_of, with_tenant_id}
use omkit_go.Headers.{header}
use omkit_go.Tenant.Cache.{UidCache, get}
use omkit_go.Tenant.{
  MiddlewareConfig, Request, Resolved, Clock, resolve_failed, auto_provision_failed, source,
  trusted, from_session, by_header, resolve_tenant, middleware, require_tenant,
}

-- The session resolver gives this tenant, with no error, for a cookie that is not empty.
abbrev pub GivesTenant : Option (String → Resolved) → Option String → String → Type 0
GivesTenant none cookie tid = ⊥
GivesTenant (some f) none tid = ⊥
GivesTenant (some f) (some v) tid = (v ≢ "") × ((f v).0 ≡ tid) × ((f v).1 ≡ false)

from_session-GivesTenant :
    (resolver : Option (String → Resolved)) (cookie : Option String) (tid : String)
    → tid ≢ ""
    → (text_or_empty (from_session resolver cookie) ≡ tid) ↔ GivesTenant resolver cookie tid
unfolding from_session
from_session-GivesTenant none cookie tid n = (λ h. n (sym h), λ g. absurd g)
from_session-GivesTenant (some f) none tid n = (λ h. n (sym h), λ g. absurd g)
from_session-GivesTenant (some f) (some v) tid n =
    ground (arith, n, eq_iff v "", eq_iff (f v).0 "", eq_iff tid "")

module _ (cfg : MiddlewareConfig) (t : Clock) (r : Request) (cache : UidCache) where
  by_header-untrusted :
      trusted cfg r ≡ false
      → ((by_header cfg t r cache).tenant ≡ "") × ((by_header cfg t r cache).cache ≡ cache)
  unfolding by_header
  by_header-untrusted h = ground (arith, h)

  trusted_iff :
      cfg.service_token ≢ ""
      → header r.headers "X-Service-Token" ≢ cfg.service_token
      → trusted cfg r ≡ false
  unfolding trusted
  trusted_iff n other = ground (
    arith,
    eq_iff cfg.service_token "",
    eq_iff (header r.headers "X-Service-Token") cfg.service_token,
  )

  -- Without the right token, a tenant other than "" is that of the session.
  resolve_tenant-session :
      trusted cfg r ≡ false
      → ((resolve_tenant cfg t r cache).tenant ≡ (
          if header r.headers "X-Tenant-ID" == ""
          then text_or_empty (from_session cfg.session_resolver r.session_cookie)
          else ""))
        × ((resolve_tenant cfg t r cache).cache ≡ cache)
  unfolding resolve_tenant
  resolve_tenant-session h =
      let (no_tenant, same) = by_header-untrusted h in
      elim (Bool-cases (header r.headers "X-Tenant-ID" == "")) [
        | inr e ↦ rw e (rw h (refl, refl))
        | inl e ↦ elim (Option-cases (from_session cfg.session_resolver r.session_cookie)) [
          | inl m ↦ rw e (rw m (no_tenant, same))
          | inr (v, m) ↦ rw e (rw m (refl, refl))
        ]
      ]

  -- Where a service token is configured and the header X-Service-Token is another text, be it
  -- empty, a request gets the tenant `tid`, which is not empty, exactly where it has no X-Tenant-ID
  -- and the session resolver gives that tenant, with no error, for a cookie that is not empty. The
  -- cache is not read or written.
  pub resolve_tenant-untrusted :
      (tid : String)
      → cfg.service_token ≢ ""
      → header r.headers "X-Service-Token" ≢ cfg.service_token
      → tid ≢ ""
      → (((resolve_tenant cfg t r cache).tenant ≡ tid) ↔ (
          (header r.headers "X-Tenant-ID" ≡ "")
          × GivesTenant cfg.session_resolver r.session_cookie tid))
        × ((resolve_tenant cfg t r cache).cache ≡ cache)
  resolve_tenant-untrusted tid token other named =
      let (which, same) = resolve_tenant-session (trusted_iff token other) in
      let given = from_session-GivesTenant cfg.session_resolver r.session_cookie tid named in
      (
        elim (Bool-cases (header r.headers "X-Tenant-ID" == "")) [
          | inl e ↦
              let it : (resolve_tenant cfg t r cache).tenant
                  ≡ text_or_empty (from_session cfg.session_resolver r.session_cookie) =
                which ∙ (rw e refl) in
              (λ h. ((eq_iff _ "").0 e, given.0 (sym it ∙ h)), λ g. it ∙ given.1 g.1)
          | inr e ↦
              let it : (resolve_tenant cfg t r cache).tenant ≡ "" = which ∙ (rw e refl) in
              (
                λ h. absurd (named (sym h ∙ it)),
                λ g. absurd (ground (arith, e, eq_iff (header r.headers "X-Tenant-ID") "", g.0)),
              )
        ],
        same,
      )

  -- A request with X-Tenant-ID, and with the service token if one is configured, gets just that
  -- tenant, whatever its cookie and its user; a handler behind the middleware then finds the tenant
  -- in its context, and Require writes no status.
  pub middleware-trusted :
      (ctx : Context)
      → trusted cfg r ≡ true
      → header r.headers "X-Tenant-ID" ≢ ""
      → let tid = header r.headers "X-Tenant-ID" in
        (middleware cfg t r ctx cache ≡ (with_tenant_id ctx tid, cache))
        × (require_tenant (middleware cfg t r ctx cache).0 ≡ (tid, none))
  unfolding middleware resolve_tenant require_tenant with_tenant_id tenant_of
  middleware-trusted ctx h n = ground (arith, h, eq_iff (header r.headers "X-Tenant-ID") "")

  -- A trusted request of a user whom the cache does not know, where the resolver fails with no
  -- tenant and there is no provisioner, is logged as a failed resolution and as a failed
  -- provisioning, which was never tried.
  resolve_tenant-misreports :
      (f : String → String → String × Bool)
      → trusted cfg r ≡ true
      → header r.headers "X-Tenant-ID" ≡ ""
      → from_session cfg.session_resolver r.session_cookie ≡ none
      → header r.headers "X-Auth-Request-User" ≢ ""
      → (get source (header r.headers "X-Auth-Request-User") t.read t.evict cache).1 ≡ ""
      → cfg.resolve_v2 ≡ some f
      → f source (header r.headers "X-Auth-Request-User") ≡ ("", true)
      → cfg.auto_provision_v2 ≡ none
      → (resolve_tenant cfg t r cache).warnings ≡ resolve_failed ∷ auto_provision_failed ∷ []
  unfolding resolve_tenant by_header
  resolve_tenant-misreports f h x s u miss v e p = ground (
    arith,
    eq_iff (header r.headers "X-Tenant-ID") "",
    eq_iff (header r.headers "X-Auth-Request-User") "",
  )
