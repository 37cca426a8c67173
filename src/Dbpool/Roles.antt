-- ===== src/Dbpool/Roles.antt =====
-- Under which role and tenant the callbacks of dbpool/pool.go run, and which role they leave behind.
use omkit_go.Prelude.{
  String, ◌≡◌, ◌⊎◌, inl, inr, refl, Bool, true, false, Option, none, some, List, [], ◌∷◌, Map,
  arith, Bool-cases,
}
use omkit_go.Dbpool.{
  Conn, View, Work, Stage, begin, set_role, set_tenant, commit, finish, with_tenant, superuser,
  with_privileged_role, with_tenant_query,
}

-- An error, and the connection as it was; or the callback, which saw the given view, succeeded, its
-- database is the new one, and the connection is under the given role.
abbrev pub Outcome : {D : Type 0} → Work D → View D → String → Conn D → Conn D × Bool → Type 0
Outcome fn view role c done =
    ((done.1 ≡ true) × (done.0 ≡ c))
    ⊎ ((done.1 ≡ false)
        × ((fn view).1 ≡ false)
        × (done.0.database ≡ (fn view).0)
        × (done.0.role ≡ role))

module _ {D : Type 0} where
  finish-Outcome :
      (broken : Bool) (fn : Work D) (view : View D) (role : String) (c : Conn D)
      → Outcome fn view role c (finish broken fn view role c)
  unfolding finish
  finish-Outcome broken fn view role c = elim (Bool-cases (fn view).1) [
    | inl f ↦ rw f (inl (refl, refl))
    | inr f ↦ elim (Bool-cases broken) [
      | inl b ↦ rw f (rw b (inl (refl, refl)))
      | inr b ↦ rw f (rw b (inr (refl, refl, refl, refl)))
    ]
  ]

  superuser-Outcome :
      (fault : Option Stage) (fn : Work D) (c : Conn D)
      → Outcome fn
          (record { role = ""; tenant = none; database = c.database })
          ""
          c
          (superuser fault fn c)
  unfolding superuser
  superuser-Outcome (some begin) fn c = inl (refl, refl)
  superuser-Outcome (some set_role) fn c = inl (refl, refl)
  superuser-Outcome (some set_tenant) fn c = finish-Outcome false fn _ "" c
  superuser-Outcome (some commit) fn c = finish-Outcome true fn _ "" c
  superuser-Outcome none fn c = finish-Outcome false fn _ "" c

  -- WithTenantQuery leaves the connection and its database as they were, whatever its callback does
  -- and whatever fails.
  pub with_tenant_query_keeps :
      (pool : String) (roles : Map String) (tenant : String) (fault : Option Stage) (fn : Work D)
      (c : Conn D)
      → (with_tenant_query pool roles fault tenant fn c).0 ≡ c
  unfolding with_tenant_query
  with_tenant_query_keeps pool roles tenant (some begin) fn c = refl
  with_tenant_query_keeps pool roles tenant (some set_role) fn c = refl
  with_tenant_query_keeps pool roles tenant (some set_tenant) fn c = refl
  with_tenant_query_keeps pool roles tenant (some commit) fn c = refl
  with_tenant_query_keeps pool roles tenant none fn c = refl

-- The uses of a connection one after another.
pub data Use (D : Type 0) : Type 0 where
  for_tenant for_query : Option Stage → String → Work D → Use D
  privileged : Option Stage → String → Work D → Use D
  as_superuser : Option Stage → Work D → Use D

abbrev pub used : {D : Type 0} → String → Map String → Use D → Conn D → Conn D
used pool roles (for_tenant fault tenant fn) c = (with_tenant pool roles fault tenant fn c).0
used pool roles (for_query fault tenant fn) c = (with_tenant_query pool roles fault tenant fn c).0
used pool roles (privileged fault to fn) c = (with_privileged_role fault to fn c).0
used pool roles (as_superuser fault fn) c = (superuser fault fn c).0

unfoldable pub run : {D : Type 0} → String → Map String → List (Use D) → Conn D → Conn D
run pool roles [] c = c
run pool roles (u ∷ us) c = run pool roles us (used pool roles u c)

abbrev pub Bound : {D : Type 0} → Use D → Type 0
Bound (for_tenant fault tenant fn) = Unit
Bound (for_query fault tenant fn) = Unit
Bound (privileged fault to fn) = Unit
Bound (as_superuser fault fn) = ⊥

abbrev text_of : Option String → String
text_of o = elim o [ none ↦ "" | some r ↦ r ]

-- A use of Superuser that succeeds takes the connection out of the role of the pool: the next use of
-- the connection without a helper runs under the role that it connected as.
pub superuser-unbound :
    {D : Type 0} (role : String) (fn : Work D) (c : Conn D)
    → c.role ≡ role
    → (superuser none fn c).1 ≡ false
    → (superuser none fn c).0.role ≡ ""
superuser-unbound role fn c h ok = elim (superuser-Outcome none fn c) [
  | inl (e, same) ↦ absurd (ground (arith, e, ok))
  | inr (e, f, d, r) ↦ r
]
