-- ===== src/Entitlement/Days.antt =====
-- The calendar of Entitlement/Calendar is a bijection of days and dates
-- (packages/database/src/domain/entitlement-engine.ts).
use d_n_i_p.Prelude.{
  ℕ, zero, suc, ◌+◌, ◌-◌, ◌≤◌, ◌<◌, ◌≡◌, refl, sym, ◌⊎◌, inl, inr, ◌==◌, Bool, arith, ltb,
  Bool-cases,
}
use d_n_i_p.Entitlement.Calendar.{
  is_leap, days_in_year, days_in_month, days_to, month_start, Civil, day_number, year_from,
  month_from, civil,
}

days_in_year_pos : (y : ℕ) → 365 ≤ days_in_year y
unfolding days_in_year
days_in_year_pos y = ground arith

pub days_in_month_pos : (leap : Bool) (m : ℕ) → 28 ≤ days_in_month leap m
unfolding days_in_month
days_in_month_pos leap m = ground arith

-- The twelve months make the year.
pub twelve_months : (y : ℕ) → month_start (is_leap y) 12 ≡ days_in_year y
unfolding month_start days_in_month days_in_year
twelve_months y = elim (Bool-cases (is_leap y)) [ inl e ↦ rw e refl | inr e ↦ rw e refl ]

-- The year that a search comes to has the day in it, if the fuel is no less than the days.
year_from_found :
    (fuel n d : ℕ)
    → d ≤ fuel
    → let (k, r) = year_from fuel n d in
      (days_to k + r ≡ days_to n + d) × (r < days_in_year (1970 + k))
unfolding year_from days_to
year_from_found zero n d h = (refl, omega (arith, days_in_year_pos (1970 + n)))
year_from_found (suc fuel) n d h = elim (Bool-cases (ltb d (days_in_year (1970 + n)))) [
  | inl e ↦ rw e (refl, ground arith)
  | inr e ↦
      let later =
        year_from_found fuel (suc n) (d - days_in_year (1970 + n))
          (omega (arith, days_in_year_pos (1970 + n))) in
      rw e (ground (arith, later), later.1)
]

month_from_found :
    (leap : Bool) (top fuel m d : ℕ)
    → top ≡ suc (m + fuel)
    → month_start leap m + d < month_start leap top
    → let (k, r) = month_from leap fuel m d in
      (month_start leap k + r ≡ month_start leap m + d) × (r < days_in_month leap k) × (k < top)
unfolding month_from month_start
month_from_found leap top zero m d t h =
    let last : top ≡ suc m = omega (arith, t) in
    let room : month_start leap m + d < month_start leap (suc m) = rw last at h in
    (refl, omega (arith, room), omega (arith, t))
month_from_found leap top (suc fuel) m d t h = elim (Bool-cases (ltb d (days_in_month leap m))) [
  | inl e ↦ rw e (refl, ground arith, omega (arith, t))
  | inr e ↦
      let over : days_in_month leap m ≤ d = ground arith in
      let later =
        month_from_found leap top fuel (suc m) (d - days_in_month leap m) (omega (arith, t))
          (omega (arith, over, h)) in
      rw e (omega (arith, later.0, over), later.1, later.2)
]

abbrev pub IsDate : Civil → Type 0
IsDate c = (c.month < 12) × (c.day < days_in_month (is_leap (1970 + c.year)) c.month)

-- Every day since 1970 has a date, which is valid and is the date of that day.
pub day_number-civil : (d : ℕ) → IsDate (civil d) × (day_number (civil d) ≡ d)
unfolding civil day_number days_to month_start
day_number-civil d =
    let (n, r) = year_from d 0 d in
    let leap = is_leap (1970 + n) in
    let found = year_from_found d 0 d (omega arith) in
    let months =
      month_from_found leap 12 11 0 r refl (omega (arith, twelve_months (1970 + n), found.1)) in
    ((months.2, months.1), omega (arith, found.0, months.0))

month_start-lt :
    (leap : Bool) (m m' : ℕ)
    → m < m'
    → month_start leap m + days_in_month leap m ≤ month_start leap m'
unfolding month_start
month_start-lt leap m zero h = absurd (omega (arith, h))
month_start-lt leap m (suc k) h = elim (Bool-cases (m == k)) [
  | inl e ↦ let same : m ≡ k = ground arith in rw same (omega arith)
  | inr e ↦ let earlier : m < k = ground arith in omega (arith, month_start-lt leap m k earlier)
]

days_to-lt : (n n' : ℕ) → n < n' → days_to n + days_in_year (1970 + n) ≤ days_to n'
unfolding days_to
days_to-lt n zero h = absurd (omega (arith, h))
days_to-lt n (suc k) h = elim (Bool-cases (n == k)) [
  | inl e ↦ let same : n ≡ k = ground arith in rw same (omega arith)
  | inr e ↦ let earlier : n < k = ground arith in omega (arith, days_to-lt n k earlier)
]

pub within_year :
    (c : Civil)
    → IsDate c
    → month_start (is_leap (1970 + c.year)) c.month + c.day < days_in_year (1970 + c.year)
within_year c v = omega (
  arith,
  v.0,
  v.1,
  month_start-lt (is_leap (1970 + c.year)) c.month 12 v.0,
  twelve_months (1970 + c.year),
)

pub day_number-year : (c c' : Civil) → IsDate c → c.year < c'.year → day_number c < day_number c'
unfolding day_number
day_number-year c c' v h = omega (arith, within_year c v, days_to-lt c.year c'.year h)

pub day_number-month :
    (c c' : Civil) → IsDate c → c.year ≡ c'.year → c.month < c'.month → day_number c < day_number c'
unfolding day_number
day_number-month c c' v same h =
    rw (← same) (omega (arith, v.1, month_start-lt (is_leap (1970 + c.year)) c.month c'.month h))

trichotomy : (a b : ℕ) → (a < b) ⊎ (b < a) ⊎ (a ≡ b)
trichotomy a b = ground arith

same_day : (c d : Civil) → c.year ≡ d.year → c.month ≡ d.month → day_number c ≡ day_number d → c ≡ d
unfolding day_number
same_day c d y m h =
    let base : days_to c.year + month_start (is_leap (1970 + c.year)) c.month
        ≡ days_to d.year + month_start (is_leap (1970 + d.year)) d.month =
      rw (y, m) refl in
    let day : c.day ≡ d.day = omega (arith, base, h) in ground arith

-- The date of the day of a valid date is that date.
pub civil-day_number : (c : Civil) → IsDate c → civil (day_number c) ≡ c
unfolding day_number
civil-day_number c v =
    let d = civil (day_number c) in
    let (w, back) = day_number-civil (day_number c) in
    elim (trichotomy d.year c.year) [
      | inl h ↦ absurd (omega (arith, day_number-year d c w h, back))
      | inr (inl h) ↦ absurd (omega (arith, day_number-year c d v h, back))
      | inr (inr year) ↦ elim (trichotomy d.month c.month) [
        | inl h ↦ absurd (omega (arith, day_number-month d c w year h, back))
        | inr (inl h) ↦ absurd (omega (arith, day_number-month c d v (sym year) h, back))
        | inr (inr month) ↦ same_day d c year month back
      ]
    ]
