-- ===== src/Quota.antt =====
-- quota/: the limits of a tenant and the checks against them. An int and an int64 are both 64 bits
-- wide; a sum is wrapped where the source adds.
pub mod Clock
pub mod Laws
pub mod Metering
pub mod Record
mod Tests
use omkit_go.Prelude.{String, Bool, true, false, Option, none, some, ◌||◌, if◌then◌else◌, ◌==◌}
use omkit_go.Prelude.Int.{ℤ, pos, ◌+ℤ◌, ltb_ℤ, wrap64}

pub data Resource : Type 0 where
  no_resource resource_docs resource_storage resource_queries : Resource

pub record Limits : Type 0 where
  pub docs : ℤ
  pub storage_bytes : ℤ
  pub queries_per_month : ℤ

pub record Usage : Type 0 where
  pub docs : ℤ
  pub storage_bytes : ℤ
  pub queries_this_month : ℤ

pub record Decision : Type 0 where
  pub allowed : Bool
  pub resource : Resource
  pub limit : ℤ
  pub used : ℤ
  pub retry_after : ℤ

unfoldable pub default_limits : Limits
default_limits = record {
  docs = pos 100;
  storage_bytes = pos 524_288_000;
  queries_per_month = pos 1000;
}

-- What the query of Load ends with: no row, an error with what Scan has left, or a row.
pub data Row : Type 0 where
  no_rows : Row
  failed found : Limits → Row

-- The limits, and whether there is an error. `pool` is false where it is nil.
unfoldable pub load : Bool → Row → Limits × Bool
load false row = (default_limits, false)
load true no_rows = (default_limits, false)
load true (failed lim) = (lim, true)
load true (found lim) = (lim, false)

-- GetUsage, with the results of its two queries; `none` is an error.
unfoldable pub get_usage : Bool → Option (ℤ × ℤ) → Option ℤ → Usage × Bool
get_usage false first second =
    (record { docs = pos 0; storage_bytes = pos 0; queries_this_month = pos 0 }, false)
get_usage true none second =
    (record { docs = pos 0; storage_bytes = pos 0; queries_this_month = pos 0 }, true)
get_usage true (some (d, b)) none =
    (record { docs = d; storage_bytes = b; queries_this_month = pos 0 }, true)
get_usage true (some (d, b)) (some q) =
    (record { docs = d; storage_bytes = b; queries_this_month = q }, false)

unfoldable pub allow_all : Decision
allow_all = record {
  allowed = true;
  resource = no_resource;
  limit = pos 0;
  used = pos 0;
  retry_after = pos 0;
}

unfoldable pub check_upload : Limits → Usage → ℤ → Decision
check_upload lim usage incoming_bytes =
    if ltb_ℤ lim.docs (wrap64 (usage.docs +ℤ pos 1))
    then record {
      allowed = false;
      resource = resource_docs;
      limit = lim.docs;
      used = usage.docs;
      retry_after = pos 0;
    }
    else if ltb_ℤ lim.storage_bytes (wrap64 (usage.storage_bytes +ℤ incoming_bytes))
    then record {
      allowed = false;
      resource = resource_storage;
      limit = lim.storage_bytes;
      used = usage.storage_bytes;
      retry_after = pos 0;
    }
    else allow_all

unfoldable pub cap_at_32_days : ℤ → ℤ
cap_at_32_days s =
    if ltb_ℤ s (pos 0) then pos 60 else if ltb_ℤ (pos 2_764_800) s then pos 2_764_800 else s

-- `left` is the whole seconds up to the first of the next month, by the two readings of the clock.
unfoldable pub check_query : Limits → Usage → (left : ℤ) → Decision
check_query lim usage left =
    if ltb_ℤ lim.queries_per_month (wrap64 (usage.queries_this_month +ℤ pos 1))
    then record {
      allowed = false;
      resource = resource_queries;
      limit = lim.queries_per_month;
      used = usage.queries_this_month;
      retry_after = cap_at_32_days left;
    }
    else allow_all

-- Whether RecordUsage inserts a row.
unfoldable pub records_usage : Bool → String → Bool
records_usage pool tenant_id = if pool then (if tenant_id == "" then false else true) else false
