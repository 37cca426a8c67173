-- ===== src/Quota/Metering.antt =====
-- RecordUsage, GetUsage and CheckQuery together: what a month's calls leave of the budget.
use omkit_go.Prelude.{
  ℕ, suc, String, ◌≡◌, ◌≢◌, ◌+◌, ◌<◌, ◌^◌, ◌↔◌, Bool, true, ◌&&◌, Option, some, Map, List, [], ◌∷◌,
  if◌then◌else◌, All, sym, ◌∙◌, arith,
}
use omkit_go.Prelude.Int.{ℤ, pos, leb_ℤ, ◌<ℤ◌}
use omkit_go.Dbpool.{Conn, Stage}
use omkit_go.Quota.{Limits, get_usage, check_query}
use omkit_go.Quota.Laws.{check_query_iff}
use omkit_go.Quota.Record.{UsageRow, record_usage, queries_since, record_usage-counted}

-- A call of RecordUsage: the step of its transaction that fails, whether the INSERT is refused, and
-- the row.
pub record Call (F : Type 0) : Type 0 where
  pub fault : Option Stage
  pub fails : Bool
  pub row : UsageRow F

module _ {F : Type 0} where
  -- The connection after these calls, and how many of them returned no error.
  unfoldable pub record_all :
      (pool : String)
      → Map String
      → List (Call F)
      → Conn (List (UsageRow F))
      → Conn (List (UsageRow F)) × ℕ
  record_all pool roles [] c = (c, 0)
  record_all pool roles (k ∷ ks) c =
      let first = record_usage pool roles k.fault true k.fails k.row c in
      let rest = record_all pool roles ks first.0 in
      (rest.0, if first.1 then rest.1 else suc rest.1)

  module _ (sees : Option String → UsageRow F → Bool) (tenant : String) (month : ℤ) where
    -- A usage of the tenant in the month, which the policy lets the tenant see.
    abbrev pub Counts : Call F → Type 0
    Counts k =
        (k.row.tenant_id ≡ tenant)
        × ((sees (some k.row.tenant_id) k.row && leb_ℤ month k.row.created_at) ≡ true)

    module _ (named : tenant ≢ "") (pool : String) (roles : Map String) where
      record_one :
          (k : Call F) (c : Conn (List (UsageRow F)))
          → Counts k
          → let (c', failed) = record_usage pool roles k.fault true k.fails k.row c in
            queries_since sees month (some tenant) c'.database ≡ (
              if failed
              then queries_since sees month (some tenant) c.database
              else suc (queries_since sees month (some tenant) c.database))
      record_one k c (e, h) = rw (sym e) (
          record_usage-counted sees pool roles k.fault k.fails k.row month c
            (λ z. named (sym e ∙ z)) h)

      record_all-Counts :
          (ks : List (Call F)) (c : Conn (List (UsageRow F)))
          → All Counts ks
          → queries_since sees month (some tenant) (record_all pool roles ks c).0.database
            ≡ queries_since sees month (some tenant) c.database + (record_all pool roles ks c).1
      unfolding record_all
      record_all-Counts [] c h = ground arith
      record_all-Counts (k ∷ ks) c (h, hs) = ground (
        arith,
        record_one k c h,
        record_all-Counts ks (record_usage pool roles k.fault true k.fails k.row c).0 hs,
      )

      -- After calls of RecordUsage for a tenant with a name, some of which fail, whose rows fall into
      -- the month and which the tenant may see, CheckQuery on the usage that GetUsage reads allows
      -- one more query exactly where the number of queries before them and of the calls that
      -- returned no error is below the month's limit. The count stays within 32 bits.
      pub check_query-recorded :
          (ks : List (Call F)) (c : Conn (List (UsageRow F))) (lim : Limits) (docs bytes left : ℤ)
          → All Counts ks
          → queries_since sees month (some tenant) c.database + (record_all pool roles ks c).1
            < 2 ^ 31
          → let used =
              queries_since sees month (some tenant) (record_all pool roles ks c).0.database in
            let usage = (get_usage true (some (docs, bytes)) (some (pos used))).0 in
            ((check_query lim usage left).allowed ≡ true) ↔ (
              pos
                (queries_since sees month (some tenant) c.database + (record_all pool roles ks c).1)
              <ℤ lim.queries_per_month)
      unfolding get_usage
      check_query-recorded ks c lim docs bytes left h small = rw (record_all-Counts ks c h) (
          (check_query_iff lim
            (record {
              docs = docs;
              storage_bytes = bytes;
              queries_this_month = pos (
                  queries_since sees month (some tenant) c.database
                  + (record_all pool roles ks c).1);
            })
            left (ground arith) (ground (arith, small))).0)
