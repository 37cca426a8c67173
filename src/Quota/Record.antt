-- ===== src/Quota/Record.antt =====
-- quota/record.go and the second query of GetUsage in quota/quota.go, in a transaction of dbpool
-- over the table usage_log. The policy of the database is a parameter, `sees`, which says whether a
-- tenant's transaction sees a row; the database gives a row its time. `F` is float64.
use omkit_go.Prelude.{
  ℕ, suc, String, ◌≡◌, refl, ◌≢◌, Bool, true, false, ◌&&◌, Option, none, some, List, [], ◌∷◌,
  if◌then◌else◌, ◌==◌, Bool-cases, inl, inr, eq_iff, Map,
}
use omkit_go.Prelude.Int.{ℤ, leb_ℤ}
use omkit_go.Dbpool.{
  Conn, Stage, View, Work, begin, set_role, set_tenant, commit, role_for_pool, with_tenant, finish,
}
use omkit_go.Quota.{records_usage}

pub record UsageRow (F : Type 0) : Type 0 where
  pub tenant_id : String
  pub provider : String
  pub model : String
  pub input_tokens : ℤ
  pub output_tokens : ℤ
  pub cost_usd : F
  pub created_at : ℤ

module _ {F : Type 0} where
  -- The INSERT; `fails` is whether the database refuses it.
  insert_row : (fails : Bool) → UsageRow F → Work (List (UsageRow F))
  insert_row true row view = (view.database, true)
  insert_row false row view = (row ∷ view.database, false)

  -- RecordUsage; the second result is whether there is an error. `there` is false where the
  -- pool is nil.
  unfoldable pub record_usage :
      (pool : String)
      → Map String
      → Option Stage
      → (there fails : Bool) → UsageRow F
      → Conn (List (UsageRow F))
      → Conn (List (UsageRow F)) × Bool
  unfolding insert_row
  record_usage pool roles fault there fails row c =
      if records_usage there row.tenant_id
      then with_tenant pool roles fault row.tenant_id (insert_row fails row) c
      else (c, false)

  module _ (sees : Option String → UsageRow F → Bool) where
    -- SELECT COUNT(*) … WHERE created_at >= date_trunc('month', now())
    unfoldable pub queries_since : (month : ℤ) → Option String → List (UsageRow F) → ℕ
    queries_since month tenant [] = 0
    queries_since month tenant (r ∷ rs) =
        let rest = queries_since month tenant rs in
        if sees tenant r && leb_ℤ month r.created_at then suc rest else rest

    finish-counted :
        (broken fails : Bool) (row : UsageRow F) (role : String) (month : ℤ)
        (c : Conn (List (UsageRow F)))
        → (sees (some row.tenant_id) row && leb_ℤ month row.created_at) ≡ true
        → let view : View (List (UsageRow F)) = record {
          role = role;
          tenant = some row.tenant_id;
          database = c.database;
        } in
          let (c', failed) = finish broken (insert_row fails row) view role c in
          queries_since month (some row.tenant_id) c'.database ≡ (
            if failed
            then queries_since month (some row.tenant_id) c.database
            else suc (queries_since month (some row.tenant_id) c.database))
    unfolding finish queries_since insert_row
    finish-counted broken true row role month c h = refl
    finish-counted true false row role month c h = refl
    finish-counted false false row role month c h = rw h refl

    -- For a pool and a tenant, a usage that the tenant may see and that falls into the month is
    -- counted once by the query of GetUsage where RecordUsage returns no error, and not at all where
    -- it returns one, whichever step of its transaction fails.
    pub record_usage-counted :
        (pool : String) (roles : Map String) (fault : Option Stage) (fails : Bool)
        (row : UsageRow F) (month : ℤ) (c : Conn (List (UsageRow F)))
        → row.tenant_id ≢ ""
        → (sees (some row.tenant_id) row && leb_ℤ month row.created_at) ≡ true
        → let (c', failed) = record_usage pool roles fault true fails row c in
          queries_since month (some row.tenant_id) c'.database ≡ (
            if failed
            then queries_since month (some row.tenant_id) c.database
            else suc (queries_since month (some row.tenant_id) c.database))
    unfolding record_usage records_usage with_tenant
    record_usage-counted pool roles fault fails row month c named h =
        elim (Bool-cases (row.tenant_id == "")) [
          | inl e ↦ absurd (named ((eq_iff row.tenant_id "").0 e))
          | inr e ↦ rw e (by_fault fault)
        ]
      where
        by_fault :
            (fault : Option Stage)
            → let (c', failed) =
                with_tenant pool roles fault row.tenant_id (insert_row fails row) c in
              queries_since month (some row.tenant_id) c'.database ≡ (
                if failed
                then queries_since month (some row.tenant_id) c.database
                else suc (queries_since month (some row.tenant_id) c.database))
        by_fault (some begin) = refl
        by_fault (some set_role) = refl
        by_fault (some set_tenant) = refl
        by_fault (some commit) = finish-counted true fails row (role_for_pool pool roles) month c h
        by_fault none = finish-counted false fails row (role_for_pool pool roles) month c h
