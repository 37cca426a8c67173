-- ===== src/Quota/Laws.antt =====
-- What the checks let through, and where a 64-bit sum wraps.
use omkit_go.Prelude.{ℕ, ◌+◌, ◌-◌, ◌^◌, ◌≤◌, ◌<◌, ◌≡◌, ◌↔◌, true, arith}
use omkit_go.Prelude.Int.{ℤ, pos, ◌+ℤ◌, ◌≤ℤ◌, ◌<ℤ◌, +ℤ_parts, wrap64, wrap64-of_range, max_int64}
use omkit_go.Quota.{
  Limits, Usage, resource_docs, check_upload, check_query, cap_at_32_days, allow_all,
}

-- Where the counters and the upload are not negative and neither sum passes the largest int64, an
-- upload is allowed exactly where one more document and its bytes stay within the two limits; where
-- it is refused for the documents the bytes are not looked at.
pub check_upload_iff :
    (lim : Limits) (usage : Usage) (incoming : ℤ)
    → pos 0 ≤ℤ usage.docs
    → usage.docs <ℤ max_int64
    → pos 0 ≤ℤ usage.storage_bytes
    → pos 0 ≤ℤ incoming
    → usage.storage_bytes +ℤ incoming ≤ℤ max_int64
    → (((check_upload lim usage incoming).allowed ≡ true)
        ↔ ((usage.docs <ℤ lim.docs) × (usage.storage_bytes +ℤ incoming ≤ℤ lim.storage_bytes)))
      × (((check_upload lim usage incoming).resource ≡ resource_docs) ↔ (lim.docs ≤ℤ usage.docs))
unfolding check_upload allow_all
check_upload_iff lim usage incoming d d' s i m =
    let wd : wrap64 (usage.docs +ℤ pos 1) ≡ usage.docs +ℤ pos 1 =
      wrap64-of_range (usage.docs +ℤ pos 1) (ground (arith, +ℤ_parts usage.docs (pos 1)))
        (ground (arith, +ℤ_parts usage.docs (pos 1))) in
    let ws : wrap64 (usage.storage_bytes +ℤ incoming) ≡ usage.storage_bytes +ℤ incoming =
      wrap64-of_range (usage.storage_bytes +ℤ incoming)
        (ground (arith, +ℤ_parts usage.storage_bytes incoming)) m in
    ground (arith, wd, ws, +ℤ_parts usage.docs (pos 1))

-- The seconds after which a refused query may be tried again are between 0 and 32 days, whatever
-- the clock gives; a query is allowed exactly where one more stays within the month's limit, the
-- counter being below the largest int.
pub check_query_iff :
    (lim : Limits) (usage : Usage) (left : ℤ)
    → pos 0 ≤ℤ usage.queries_this_month
    → usage.queries_this_month <ℤ max_int64
    → (((check_query lim usage left).allowed ≡ true)
        ↔ (usage.queries_this_month <ℤ lim.queries_per_month))
      × (pos 0 ≤ℤ (check_query lim usage left).retry_after)
      × ((check_query lim usage left).retry_after ≤ℤ pos 2_764_800)
unfolding check_query allow_all cap_at_32_days
check_query_iff lim usage left q q' =
    let w : wrap64 (usage.queries_this_month +ℤ pos 1) ≡ usage.queries_this_month +ℤ pos 1 =
      wrap64-of_range (usage.queries_this_month +ℤ pos 1)
        (ground (arith, +ℤ_parts usage.queries_this_month (pos 1)))
        (ground (arith, +ℤ_parts usage.queries_this_month (pos 1))) in
    ground (arith, w, +ℤ_parts usage.queries_this_month (pos 1))

-- Where the bytes in use and those of the upload pass the largest int64 together, each being at most
-- that number and at least 1, the upload is allowed under any limit that is not negative, if one
-- more document is.
pub check_upload-wraps :
    (lim : Limits) (docs used incoming : ℕ)
    → pos docs <ℤ lim.docs
    → docs < 2 ^ 63 - 1
    → pos 0 ≤ℤ lim.storage_bytes
    → used < 2 ^ 63
    → incoming < 2 ^ 63
    → 2 ^ 63 ≤ used + incoming
    → let usage : Usage = record {
      docs = pos docs;
      storage_bytes = pos used;
      queries_this_month = pos 0;
    } in
      (check_upload lim usage (pos incoming)).allowed ≡ true
unfolding check_upload allow_all wrap64 ◌+ℤ◌
check_upload-wraps lim docs used incoming d d' l u i s = ground arith
