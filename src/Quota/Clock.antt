-- ===== src/Quota/Clock.antt =====
-- quota/quota_time.go and secondsUntilNextMonth of quota/quota.go, over the civil calendar in UTC
-- that package time computes with. A day is 86_400 seconds, and an instant is counted in nanoseconds
-- from the start of the year 0.
pub mod Deadline
use omkit_go.Prelude.{
  ℕ, zero, suc, ◌+◌, ◌-◌, ◌*◌, ◌/◌, ◌%◌, Bool, true, false, ◌&&◌, ◌||◌, not, if◌then◌else◌, ltb,
  leb,
}
use omkit_go.Prelude.Int.{ℤ, pos, negsuc}
use omkit_go.Quota.{Limits, Usage, Decision, cap_at_32_days, check_query}

-- The months are 1 to 12, the days of a month start with 1.
pub record Time : Type 0 where
  pub year : ℕ
  pub month : ℕ
  pub day : ℕ
  pub second_of_day : ℕ
  pub nanosecond : ℕ

abbrev pub divides : ℕ → ℕ → Bool
divides k n = not (ltb 0 (n % k))

unfoldable pub is_leap : ℕ → Bool
is_leap y = divides 4 y && (not (divides 100 y) || divides 400 y)

abbrev pub is : ℕ → ℕ → Bool
is a b = leb a b && leb b a

unfoldable pub days_in : (year month : ℕ) → ℕ
days_in y m =
    if is m 2
    then (if is_leap y then 29 else 28)
    else if is m 4 || (is m 6 || (is m 9 || is m 11))
    then 30
    else 31

-- The days of the first months of a year.
unfoldable pub days_through : (year month : ℕ) → ℕ
days_through y zero = 0
days_through y (suc m) = days_through y m + days_in y (suc m)

unfoldable pub days_before_year : ℕ → ℕ
days_before_year zero = 0
days_before_year (suc y) = days_before_year y + days_through y 12

unfoldable pub days_of : Time → ℕ
days_of t = days_before_year t.year + days_through t.year (t.month - 1) + (t.day - 1)

unfoldable pub instant : Time → ℕ
instant t = (days_of t * 86_400 + t.second_of_day) * 1_000_000_000 + t.nanosecond

-- time.Date makes the month 13 the first of the next year.
unfoldable pub first_of_next_month : Time → Time
first_of_next_month n =
    if ltb n.month 12
    then record { year = n.year; month = suc n.month; day = 1; second_of_day = 0; nanosecond = 0 }
    else record { year = suc n.year; month = 1; day = 1; second_of_day = 0; nanosecond = 0 }

-- int(first.Sub(now).Seconds()), which is cut towards zero.
unfoldable pub whole_seconds : (first now : ℕ) → ℤ
whole_seconds first now =
    if leb now first
    then pos ((first - now) / 1_000_000_000)
    else (let k = (now - first) / 1_000_000_000 in if ltb 0 k then negsuc (k - 1) else pos 0)

-- What check_query takes as `left`; the clock is read twice, first for the month.
unfoldable pub seconds_left : (n now : Time) → ℤ
seconds_left n now = whole_seconds (instant (first_of_next_month n)) (instant now)

unfoldable pub seconds_until_next_month : (n now : Time) → ℤ
seconds_until_next_month n now = cap_at_32_days (seconds_left n now)
