-- ===== src/Quota/Tests.antt =====
-- The theorem on recorded usage, where a tenant sees its own rows.
use omkit_go.Prelude.{
  ◌*◌, ◌≤◌, ◌<◌, ℕ, ◌+◌, ◌↔◌, ◌∷◌, ◌≢◌, String, Bool, true, false, ◌≡◌, refl, Option, none, some,
  List, [], ◌==◌, arith, eq_iff,
}
use omkit_go.Prelude.Int.{wrap64, ◌+ℤ◌, pos, pos_part, ◌<ℤ◌}
use omkit_go.Dbpool.{Conn, commit, with_tenant, finish}
use omkit_go.Quota.Clock.{
  Time, instant, days_of, days_before_year, days_through, days_in, is_leap, first_of_next_month,
  seconds_left,
}
use omkit_go.Quota.Clock.Deadline.{month_end, check_query-deadline}
use omkit_go.Quota.{Usage, records_usage, get_usage, check_query, default_limits}
use omkit_go.Quota.Metering.{Call, record_all, check_query-recorded}
use omkit_go.Quota.Record.{UsageRow, record_usage, queries_since}

abbrev sees : Option String → UsageRow ℕ → Bool
sees none row = false
sees (some tenant) row = row.tenant_id == tenant

abbrev row : UsageRow ℕ
row = record {
  tenant_id = "acme";
  provider = "ollama";
  model = "llama3";
  input_tokens = pos 12;
  output_tokens = pos 40;
  cost_usd = 0;
  created_at = pos 20;
}

abbrev conn : Conn (List (UsageRow ℕ))
conn = record { role = "omur"; database = [] }

recorded_queries :
    queries_since sees
      (pos 10)
      (some "acme")
      (record_usage "main" [] none true false row conn).0.database
    ≡ 1
unfolding record_usage records_usage with_tenant finish queries_since
recorded_queries = refl

-- One call that succeeds, and one whose commit fails.
abbrev calls : List (Call ℕ)
calls =
    record { fault = none; fails = false; row = row }
    ∷ record { fault = some commit; fails = false; row = row }
    ∷ []

acme_named : ◌≢◌ {A = String} "acme" ""
acme_named = λ e. ground (arith, e, eq_iff "acme" "")

check_query-recorded_example :
    let used =
      queries_since sees (pos 10) (some "acme") (record_all "main" [] calls conn).0.database in
    let usage = (get_usage true (some (pos 3, pos 900)) (some (pos used))).0 in
    ((check_query default_limits usage (pos 60)).allowed ≡ true) ↔ (
      pos (
        queries_since sees (pos 10) (some "acme") conn.database
        + (record_all "main" [] calls conn).1)
      <ℤ default_limits.queries_per_month)
unfolding record_all record_usage records_usage with_tenant finish queries_since
check_query-recorded_example =
    check_query-recorded sees "acme" (pos 10) acme_named "main" [] calls conn default_limits (pos 3)
      (pos 900) (pos 60) ((refl, refl), ((refl, refl), tt)) (omega arith)

-- Noon on the 30th of December of a leap year, and five seconds later.
abbrev noon : Time
noon = record { year = 4; month = 12; day = 30; second_of_day = 43_200; nanosecond = 500 }

abbrev later : Time
later = record noon { second_of_day = 43_205 }

abbrev spent : Usage
spent = record { docs = pos 0; storage_bytes = pos 0; queries_this_month = pos 20_000 }

check_query-deadline_example :
    let wait = pos_part (check_query default_limits spent (seconds_left noon later)).retry_after in
    (instant later + wait * 1_000_000_000 ≤ month_end noon)
    × (month_end noon < instant later + (wait + 1) * 1_000_000_000)
    × (wait ≤ 2_678_400)
unfolding wrap64 ◌+ℤ◌ check_query default_limits instant days_of days_before_year days_through
    days_in is_leap first_of_next_month
check_query-deadline_example =
    check_query-deadline default_limits spent noon later
      (omega arith, omega arith, omega arith, omega arith, omega arith, omega arith) (omega arith)
      (omega arith) refl

long_february : (days_in 2024 2 ≡ 29) × (days_in 2100 2 ≡ 28)
unfolding days_in is_leap
long_february = (refl, refl)
