-- ===== src/Quota/Clock/Deadline.antt =====
-- The time after which a refused query may be tried again is the end of the month.
use omkit_go.Prelude.{
  ℕ, zero, suc, ◌+◌, ◌-◌, ◌*◌, ◌≤◌, ◌<◌, ◌≡◌, refl, false, ltb, Bool-cases, inl, inr, arith,
}
use omkit_go.Prelude.Int.{pos_part}
use omkit_go.Quota.{Limits, Usage, check_query, cap_at_32_days, allow_all}
use omkit_go.Quota.Clock.{
  Time, days_in, days_through, days_before_year, days_of, instant, first_of_next_month,
  whole_seconds, seconds_left,
}

-- A month and a day of it; the day may be the last second's, and the nanoseconds are below one.
abbrev pub IsValid : Time → Type 0
IsValid t =
    (1 ≤ t.month)
    × (t.month ≤ 12)
    × (1 ≤ t.day)
    × (t.day ≤ days_in t.year t.month)
    × (t.second_of_day < 86_400)
    × (t.nanosecond < 1_000_000_000)

days_in_le : (y m : ℕ) → days_in y m ≤ 31
unfolding days_in
days_in_le y m = ground arith

suc_then_pred : (m : ℕ) → suc m - 1 ≡ m
suc_then_pred m = omega arith

days_through-month : (y m : ℕ) → 1 ≤ m → days_through y m ≤ days_through y (m - 1) + 31
unfolding days_through
days_through-month y zero h = absurd (omega (arith, h))
days_through-month y (suc m) h = rw (suc_then_pred m) (omega (arith, days_in_le y (suc m)))

no_months : (y : ℕ) → days_through y 0 ≡ 0
unfolding days_through
no_months y = refl

year_end :
    (y m : ℕ)
    → m ≡ 12
    → days_before_year (suc y) + days_through (suc y) 0 + 0 ≡ days_before_year y + days_through y m
unfolding days_before_year
year_end y m e = rw e (omega (arith, no_months (suc y)))

first-days :
    (n : Time)
    → n.month ≤ 12
    → days_of (first_of_next_month n) ≡ days_before_year n.year + days_through n.year n.month
unfolding first_of_next_month days_of
first-days n hi = elim (Bool-cases (ltb n.month 12)) [
  | inl b ↦ rw b (rw (suc_then_pred n.month) (omega arith))
  | inr b ↦ rw b (year_end n.year n.month (ground (arith, b, hi)))
]

first-midnight :
    (n : Time)
    → instant (first_of_next_month n) ≡ days_of (first_of_next_month n) * 86_400_000_000_000
unfolding first_of_next_month instant
first-midnight n = elim (Bool-cases (ltb n.month 12)) [
  | inl b ↦ rw b (omega arith)
  | inr b ↦ rw b (omega arith)
]

-- The first of the next month is at most 31 days away.
first-instant :
    (n : Time) → IsValid n → instant (first_of_next_month n) ≤ instant n + 2_678_400_000_000_000
unfolding instant days_of
first-instant n (lo, hi, d, d', s, ns) =
    omega (arith, first-midnight n, first-days n hi, days_through-month n.year n.month lo, d)

-- The instant at which the month of this time ends: all its days and those before them, at midnight.
abbrev pub month_end : Time → ℕ
month_end n = (days_before_year n.year + days_through n.year n.month) * 86_400_000_000_000

first-month_end : (n : Time) → n.month ≤ 12 → instant (first_of_next_month n) ≡ month_end n
first-month_end n hi = omega (arith, first-midnight n, first-days n hi)

first_instant-month_end : (n : Time) → IsValid n → instant (first_of_next_month n) ≡ month_end n
first_instant-month_end n (lo, hi, d, d', s, ns) = first-month_end n hi

-- Where a query is refused, and the clock, which first shows a time of the calendar, is not before
-- that time when it is read again, nor past the end of that time's month: after the seconds that the
-- caller is told to wait, the end of the month is less than a second away and not past, and these
-- are at most 31 days. In the last second of a month they are 0.
pub check_query-deadline :
    (lim : Limits) (usage : Usage) (n now : Time)
    → IsValid n
    → instant n ≤ instant now
    → instant now ≤ month_end n
    → (check_query lim usage (seconds_left n now)).allowed ≡ false
    → let wait = pos_part (check_query lim usage (seconds_left n now)).retry_after in
      (instant now + wait * 1_000_000_000 ≤ month_end n)
      × (month_end n < instant now + (wait + 1) * 1_000_000_000)
      × (wait ≤ 2_678_400)
unfolding check_query allow_all cap_at_32_days seconds_left whole_seconds
check_query-deadline lim usage n now v le end refused =
    let near = first-instant n v in
    let same = first_instant-month_end n v in ground (arith, near, same, le, end, refused)
