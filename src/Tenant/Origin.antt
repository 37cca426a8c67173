-- ===== src/Tenant/Origin.antt =====
-- A user gets no tenant that was found for another: the cache included, every tenant that the
-- middleware gives a user comes from a call of the resolver or of the provisioner for that user.
use mathlib.Core.Path.{subst}
use omkit_go.Prelude.{
  String, ◌≡◌, refl, ◌≢◌, ◌⊎◌, inl, inr, Bool, Option, none, some, lookup, lookup-insert,
  lookup-erase, Bool-cases, Option-cases, arith, ◌==◌, eq_iff, if◌then◌else◌,
}
use omkit_go.Prelude.Int.{ℤ, ◌+ℤ◌}
use omkit_go.Headers.{header}
use omkit_go.Tenant.Cache.{CacheEntry, UidCache, cache_key, is_expired, evict, get, set}
use omkit_go.Tenant.CacheLaws.{cache_key-injective, get-of_lookup}
use omkit_go.Tenant.{
  AuthDetails, MiddlewareConfig, Request, Clock, source, trusted, from_session, by_header, by_uid,
  look_up, call_resolver, call_provisioner, resolve_tenant,
}

module _ (P : String → String → Type 0) where
  -- `P uid tid` holds of every tenant id that the caller's functions give a user.
  pub record IsSound (cfg : MiddlewareConfig) : Type 0 where
    pub resolver :
        (f : String → String → String × Bool) (uid : String)
        → cfg.resolve_v2 ≡ some f
        → (f source uid).0 ≢ ""
        → P uid (f source uid).0
    pub provisioner :
        (f : AuthDetails → String × Bool) (d : AuthDetails)
        → cfg.auto_provision_v2 ≡ some f
        → (f d).0 ≢ ""
        → P d.auth_uid (f d).0

  -- It holds of every entry of the cache.
  abbrev pub Holds : UidCache → Type 0
  Holds c =
      (uid : String) (e : CacheEntry)
      → lookup (cache_key source uid) c.entries ≡ some e
      → P uid e.tenant_id

  Holds-evict : (k : String) (now : ℤ) (c : UidCache) → Holds c → Holds (evict k now c)
  unfolding evict
  Holds-evict k now c h uid e x = elim (Option-cases (lookup k c.entries)) [
    | inl m ↦ h uid e (rw (evict, m) at x)
    | inr (cur, m) ↦ h uid e (ground (arith, m, x, lookup-erase k (cache_key source uid) c.entries))
  ]

  Holds-get :
      (uid : String) (now now' : ℤ) (c : UidCache) → Holds c → Holds (get source uid now now' c).0
  unfolding get
  Holds-get uid now now' c h = elim (Option-cases (lookup (cache_key source uid) c.entries)) [
    | inl m ↦ rw (get, m) h
    | inr (cur, m) ↦ elim (Bool-cases (is_expired cur now)) [
      | inl x ↦ rw (get, m) (rw x (Holds-evict (cache_key source uid) now' c h))
      | inr x ↦ rw (get, m) (rw x h)
    ]
  ]

  get-found :
      (uid : String) (now now' : ℤ) (c : UidCache)
      → ((get source uid now now' c).1 ≡ "")
        ⊎ ((e : CacheEntry) × (lookup (cache_key source uid) c.entries ≡ some e)
            × ((get source uid now now' c).1 ≡ e.tenant_id))
  unfolding get
  get-found uid now now' c = elim (Option-cases (lookup (cache_key source uid) c.entries)) [
    | inl m ↦ inl (rw (get, m) refl)
    | inr (e, m) ↦ elim (Bool-cases (is_expired e now)) [
      | inl x ↦ inl (ground (arith, get-of_lookup source uid now now' c e m))
      | inr x ↦ inr (e, m, ground (arith, get-of_lookup source uid now now' c e m))
    ]
  ]

  get-P :
      (uid : String) (now now' : ℤ) (c : UidCache)
      → Holds c
      → (get source uid now now' c).1 ≢ ""
      → P uid (get source uid now now' c).1
  get-P uid now now' c h n = elim (get-found uid now now' c) [
    | inl e ↦ absurd (n e)
    | inr (e, m, x) ↦ rw x (h uid e m)
  ]

  Holds-set :
      (uid tid : String) (now : ℤ) (c : UidCache)
      → P uid tid
      → Holds c
      → Holds (set source uid tid now c)
  unfolding set
  Holds-set uid tid now c p h uid' e x =
      elim (Bool-cases (cache_key source uid == cache_key source uid')) [
        | inl s ↦
            let same : uid ≡ uid' =
              cache_key-injective source uid uid'
                ((eq_iff (cache_key source uid) (cache_key source uid')).0 s) in
            let new : tid ≡ e.tenant_id = ground (
              arith,
              x,
              s,
              lookup-insert (cache_key source uid) (cache_key source uid')
                  (record { tenant_id = tid; expires = now +ℤ c.ttl }) c.entries,
            ) in
            subst (λ u. P u e.tenant_id) same (subst (P uid) new p)
        | inr s ↦ h uid' e (
            ground (
              arith,
              x,
              s,
              lookup-insert (cache_key source uid) (cache_key source uid')
                  (record { tenant_id = tid; expires = now +ℤ c.ttl }) c.entries,
            ))
      ]

  resolver-P :
      (cfg : MiddlewareConfig) (uid : String)
      → IsSound cfg
      → (call_resolver cfg.resolve_v2 uid).0 ≢ ""
      → P uid (call_resolver cfg.resolve_v2 uid).0
  unfolding call_resolver
  resolver-P cfg uid s n = go cfg.resolve_v2 refl n
    where
      go :
          (r : Option (String → String → String × Bool))
          → cfg.resolve_v2 ≡ r
          → (call_resolver r uid).0 ≢ ""
          → P uid (call_resolver r uid).0
      go none e n = absurd (n refl)
      go (some f) e n = s.resolver f uid e n

  -- The tenant that `look_up` finds, and what it leaves in the cache.
  provisioner-P :
      (cfg : MiddlewareConfig) (d : AuthDetails) (before : String × Bool)
      → IsSound cfg
      → before.0 ≡ ""
      → (call_provisioner cfg.auto_provision_v2 d before).0 ≢ ""
      → P d.auth_uid (call_provisioner cfg.auto_provision_v2 d before).0
  unfolding call_provisioner
  provisioner-P cfg d before s b n = go cfg.auto_provision_v2 refl n
    where
      go :
          (r : Option (AuthDetails → String × Bool))
          → cfg.auto_provision_v2 ≡ r
          → (call_provisioner r d before).0 ≢ ""
          → P d.auth_uid (call_provisioner r d before).0
      go none e n = absurd (n b)
      go (some f) e n = s.provisioner f d e n

  abbrev Sound : String → UidCache → String → Type 0
  Sound uid c tid = Holds c × ((tid ≡ "") ⊎ P uid tid)

  stored-Sound :
      (t : ℤ) (uid tid : String) (c : UidCache)
      → Holds c
      → (tid ≢ "" → P uid tid)
      → Sound uid (if tid == "" then c else set source uid tid t c) tid
  stored-Sound t uid tid c h p = elim (Bool-cases (tid == "")) [
    | inl e ↦ rw e (h, inl ((eq_iff tid "").0 e))
    | inr e ↦
        let q : P uid tid = p (ground (arith, e, eq_iff tid "")) in
        rw e (Holds-set uid tid t c q h, inr q)
  ]

  look_up-Sound :
      (cfg : MiddlewareConfig) (t : Clock) (r : Request) (uid : String) (c : UidCache)
      → IsSound cfg
      → Holds c
      → Sound uid (look_up cfg t r uid c).cache (look_up cfg t r uid c).tenant
  unfolding look_up
  look_up-Sound cfg t r uid c s h = stored-Sound t.write uid _ c h (λ n.
      elim (Bool-cases ((call_resolver cfg.resolve_v2 uid).0 == "")) [
        | inl e ↦ rw e (
            provisioner-P cfg _ _ s ((eq_iff (call_resolver cfg.resolve_v2 uid).0 "").0 e)
              (rw e at n))
        | inr e ↦ rw e (resolver-P cfg uid s (rw e at n))
      ])

  by_uid-Sound :
      (cfg : MiddlewareConfig) (t : Clock) (r : Request) (uid : String) (c : UidCache)
      → IsSound cfg
      → Holds c
      → Sound uid (by_uid cfg t r uid c).cache (by_uid cfg t r uid c).tenant
  unfolding by_uid
  by_uid-Sound cfg t r uid c s h =
      let g = get source uid t.read t.evict c in
      let h' : Holds g.0 = Holds-get uid t.read t.evict c h in
      elim (Bool-cases (g.1 == "")) [
        | inl e ↦ rw e (look_up-Sound cfg t r uid g.0 s h')
        | inr e ↦ rw e (h', inr (get-P uid t.read t.evict c h (ground (arith, e, eq_iff g.1 ""))))
      ]

  by_header-Sound :
      (cfg : MiddlewareConfig) (t : Clock) (r : Request) (c : UidCache)
      → IsSound cfg
      → Holds c
      → Sound
          (header r.headers "X-Auth-Request-User")
          (by_header cfg t r c).cache
          (by_header cfg t r c).tenant
  unfolding by_header
  by_header-Sound cfg t r c s h =
      let uid = header r.headers "X-Auth-Request-User" in
      elim (Bool-cases (uid == "")) [
        | inl e ↦ rw e (h, inl refl)
        | inr e ↦ elim (Bool-cases (trusted cfg r)) [
          | inl tr ↦ rw e (rw tr (by_uid-Sound cfg t r uid c s h))
          | inr tr ↦ rw e (rw tr (h, inl refl))
        ]
      ]

  -- Where the resolver and the provisioner give a user only tenants for which `P` holds, and `P`
  -- holds of all that the cache has, it still does after a request; and the request's tenant is
  -- that of its X-Tenant-ID header, or that of its session, or none, or one that `P` holds of for
  -- the user of X-Auth-Request-User, be it from the cache or from a call.
  pub resolve_tenant-Holds :
      (cfg : MiddlewareConfig) (t : Clock) (r : Request) (c : UidCache)
      → IsSound cfg
      → Holds c
      → let o = resolve_tenant cfg t r c in
        Holds o.cache
        × ((o.tenant ≡ header r.headers "X-Tenant-ID")
            ⊎ ((from_session cfg.session_resolver r.session_cookie ≡ some o.tenant)
                ⊎ ((o.tenant ≡ "") ⊎ P (header r.headers "X-Auth-Request-User") o.tenant)))
  unfolding resolve_tenant
  resolve_tenant-Holds cfg t r c s h =
      let tid = header r.headers "X-Tenant-ID" in
      elim (Bool-cases (tid == "")) [
        | inr e ↦ elim (Bool-cases (trusted cfg r)) [
          | inl tr ↦ rw e (rw tr (h, inl refl))
          | inr tr ↦ rw e (rw tr (h, inr (inr (inl refl))))
        ]
        | inl e ↦ elim (Option-cases (from_session cfg.session_resolver r.session_cookie)) [
          | inl m ↦ let (hc, ht) = by_header-Sound cfg t r c s h in rw e (rw m (hc, inr (inr ht)))
          | inr (v, m) ↦ rw e (rw m (h, inr (inl refl)))
        ]
      ]
