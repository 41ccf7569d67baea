-- ===== src/Entitlement/Calendar.antt =====
-- The UTC calendar as the JavaScript Date reads it, from 1970 on, and addUtcMonths of
-- packages/database/src/domain/entitlement-engine.ts. A time is in milliseconds since 1970; the
-- last one of a Date is 8.64e15.
use d_n_i_p.Prelude.{
  ℕ, zero, suc, ◌+◌, ◌-◌, ◌*◌, ◌/◌, ◌%◌, min, Bool, not, ◌&&◌, ◌||◌, ◌==◌, ltb, leb, Option, none,
  some, if◌then◌else◌,
}

abbrev pub day_ms : ℕ
day_ms = 86400000

abbrev pub max_time : ℕ
max_time = 8640000000000000

-- `new Date(t)`; none is an Invalid Date.
unfoldable pub new_date : ℕ → Option ℕ
new_date t = if leb t max_time then some t else none

unfoldable pub is_leap : ℕ → Bool
is_leap y = y % 4 == 0 && (not (y % 100 == 0) || y % 400 == 0)

unfoldable pub days_in_year : ℕ → ℕ
unfolding is_leap
days_in_year y = if is_leap y then 366 else 365

-- Months count from 0. This is also the day of `Date.UTC(y, m + 1, 0)`.
unfoldable pub days_in_month : Bool → ℕ → ℕ
days_in_month leap m =
    if m == 1
    then (if leap then 29 else 28)
    else if m == 3 || m == 5 || m == 8 || m == 10
    then 30
    else 31

-- The days of the n years from 1970, and of the first m months of a year.
unfoldable pub days_to : ℕ → ℕ
days_to zero = 0
days_to (suc n) = days_to n + days_in_year (1970 + n)

unfoldable pub month_start : Bool → ℕ → ℕ
month_start leap zero = 0
month_start leap (suc m) = month_start leap m + days_in_month leap m

-- `year` counts from 1970, `month` and `day` from 0.
pub record Civil : Type 0 where
  pub year : ℕ
  pub month : ℕ
  pub day : ℕ

unfoldable pub day_number : Civil → ℕ
day_number c = days_to c.year + month_start (is_leap (1970 + c.year)) c.month + c.day

-- Takes off whole years, then whole months, while there is a whole one.
unfoldable pub year_from : ℕ → ℕ → ℕ → ℕ × ℕ
year_from zero n d = (n, d)
year_from (suc fuel) n d =
    let rest = year_from fuel (suc n) (d - days_in_year (1970 + n)) in
    if ltb d (days_in_year (1970 + n)) then (n, d) else rest

unfoldable pub month_from : Bool → ℕ → ℕ → ℕ → ℕ × ℕ
month_from leap zero m d = (m, d)
month_from leap (suc fuel) m d =
    let rest = month_from leap fuel (suc m) (d - days_in_month leap m) in
    if ltb d (days_in_month leap m) then (m, d) else rest

-- The date of a day since 1970: at most as many years as days, and at most eleven whole months.
unfoldable pub civil : ℕ → Civil
unfolding year_from month_from
civil d =
    let (n, r) = year_from d 0 d in
    let (m, k) = month_from (is_leap (1970 + n)) 11 0 r in record { year = n; month = m; day = k }

-- addUtcMonths, for a count that is not negative.
unfoldable pub add_months : Civil → ℕ → Civil
add_months c months =
    let total = c.month + months in
    let y = c.year + total / 12 in
    let m = total % 12 in
    record { year = y; month = m; day = min (suc c.day) (days_in_month (is_leap (1970 + y)) m) - 1 }

-- The last day of a month, `Date.UTC(year, month + 1, 0)`.
unfoldable pub month_end : Civil → Civil
month_end c = record c { day = days_in_month (is_leap (1970 + c.year)) c.month - 1 }

-- A month whose last day is no Date gives no Date, since its length is read from that day.
unfoldable pub add_utc_months : ℕ → ℕ → Option ℕ
unfolding civil add_months day_number month_end new_date
add_utc_months t months =
    let later = add_months (civil (t / day_ms)) months in
    elim (new_date (day_number (month_end later) * day_ms)) [
      | none ↦ none
      | some last ↦ new_date (day_number later * day_ms + t % day_ms)
    ]
