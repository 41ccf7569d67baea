-- ===== src/Entitlement/Dates.antt =====
-- Adding months moves a date on (packages/database/src/domain/entitlement-engine.ts).
use d_n_i_p.Prelude.{
  ℕ, zero, suc, ◌+◌, ◌-◌, ◌*◌, ◌/◌, ◌%◌, ◌≤◌, ◌<◌, ◌≡◌, ◌∙◌, refl, ap, inl, inr, min, arith, ltb,
  leb, some, Bool-cases, Option-cases,
}
use d_n_i_p.Entitlement.Calendar.{
  day_ms, max_time, new_date, month_end, is_leap, days_in_year, days_in_month, days_to, Civil,
  day_number, civil, add_months, add_utc_months,
}
use d_n_i_p.Entitlement.Days.{
  IsDate, days_in_month_pos, within_year, day_number-year, day_number-month, day_number-civil,
  civil-day_number,
}

add_months-IsDate : (c : Civil) (k : ℕ) → IsDate (add_months c k)
unfolding add_months
add_months-IsDate c k =
    let total = c.month + k in
    (
      omega arith,
      omega (arith, days_in_month_pos (is_leap (1970 + (c.year + total / 12))) (total % 12)),
    )

-- A positive number of months later is a later day.
add_months-later :
    (c : Civil) (k : ℕ) → IsDate c → 0 < k → day_number c < day_number (add_months c k)
unfolding add_months
add_months-later c k v h = elim (Bool-cases (ltb (c.month + k) 12)) [
  | inl e ↦
      let within : c.month + k < 12 = ground arith in
      day_number-month c (add_months c k) v (omega (arith, within)) (omega (arith, within, h))
  | inr e ↦
      let over : 12 ≤ c.month + k = ground arith in
      day_number-year c (add_months c k) v (omega (arith, over))
]

pub new_date_inv : (t u : ℕ) → new_date t ≡ some u → (u ≡ t) × (t ≤ max_time)
unfolding new_date
new_date_inv t u h = elim (Bool-cases (leb t max_time)) [
  | inl e ↦ (ground arith, ground arith)
  | inr e ↦ absurd (ground arith)
]

pub new_date-some : (t : ℕ) → t ≤ max_time → new_date t ≡ some t
unfolding new_date
new_date-some t h = ground arith

add_utc_months_inv :
    (t months u : ℕ)
    → add_utc_months t months ≡ some u
    → (u ≡ day_number (add_months (civil (t / day_ms)) months) * day_ms + t % day_ms)
      × (u ≤ max_time)
unfolding add_utc_months
add_utc_months_inv t months u h =
    let later = add_months (civil (t / day_ms)) months in
    elim (Option-cases (new_date (day_number (month_end later) * day_ms))) [
      | inl e ↦ absurd (ground arith)
      | inr (last, e) ↦
          let made : new_date (day_number later * day_ms + t % day_ms) ≡ some u = ground arith in
          let (same, within) = new_date_inv (day_number later * day_ms + t % day_ms) u made in
          (same, rw same within)
    ]

-- Months that add to a time and give a Date give one that has exactly that many months more, the
-- same day of the month or the last one if the month is shorter, and the same time of the day.
pub add_utc_months-civil :
    (t months u : ℕ)
    → add_utc_months t months ≡ some u
    → let c = civil (t / day_ms) in
      let c' = civil (u / day_ms) in
      (12 * c'.year + c'.month ≡ 12 * c.year + c.month + months)
      × (c'.day ≡ min c.day (days_in_month (is_leap (1970 + c'.year)) c'.month - 1))
      × (u % day_ms ≡ t % day_ms)
      × (u ≤ max_time)
unfolding add_months
add_utc_months-civil t months u h =
    let c = civil (t / day_ms) in
    let later = add_months c months in
    let n = day_number later in
    let (same, within) = add_utc_months_inv t months u h in
    let whole : u / day_ms ≡ n = omega (arith, same) in
    let date : civil (u / day_ms) ≡ later =
      ap civil whole ∙ civil-day_number later (add_months-IsDate c months) in
    rw date (
      omega arith,
      omega (arith, days_in_month_pos (is_leap (1970 + later.year)) later.month),
      omega (arith, same),
      within,
    )

-- A positive number of months later is later.
pub add_utc_months_later : (t months u : ℕ) → 0 < months → add_utc_months t months ≡ some u → t < u
add_utc_months_later t months u h k =
    let (v, back) = day_number-civil (t / day_ms) in
    let (same, _) = add_utc_months_inv t months u k in
    omega (arith, add_months-later (civil (t / day_ms)) months v h, back, same)

days_to-bounds : (n : ℕ) → (365 * n ≤ days_to n) × (days_to n ≤ 366 * n)
unfolding days_to days_in_year
days_to-bounds zero = (omega arith, omega arith)
days_to-bounds (suc n) = elim (Bool-cases (is_leap (1970 + n))) [
  | inl e ↦ rw e (omega (arith, days_to-bounds n), omega (arith, days_to-bounds n))
  | inr e ↦ rw e (omega (arith, days_to-bounds n), omega (arith, days_to-bounds n))
]

days_in_year_le : (y : ℕ) → days_in_year y ≤ 366
unfolding days_in_year
days_in_year_le y = ground arith

day_number-bounds :
    (c : Civil) → IsDate c → (365 * c.year ≤ day_number c) × (day_number c < 366 * c.year + 366)
unfolding day_number
day_number-bounds c v =
    let (low, high) = days_to-bounds c.year in
    (omega (arith, low), omega (arith, high, within_year c v, days_in_year_le (1970 + c.year)))

month_end-IsDate : (c : Civil) → IsDate c → IsDate (month_end c)
unfolding month_end
month_end-IsDate c v = (v.0, omega (arith, days_in_month_pos (is_leap (1970 + c.year)) c.month))

-- Up to the time 4e15, which is after the year 100000, any 300000 months give a Date.
pub add_utc_months-some :
    (t months : ℕ)
    → t ≤ 4000000000000000
    → months ≤ 300000
    → (u : ℕ) × (add_utc_months t months ≡ some u)
unfolding add_utc_months
add_utc_months-some t months h k =
    let c = civil (t / day_ms) in
    let (v, back) = day_number-civil (t / day_ms) in
    let later = add_months c months in
    let valid = add_months-IsDate c months in
    let (low, _) = day_number-bounds c v in
    let (_, high) = day_number-bounds later valid in
    let (_, end_high) = day_number-bounds (month_end later) (month_end-IsDate later valid) in
    let years : later.year ≤ 151850 = unfold add_months in omega (arith, low, back, v.0, h, k) in
    let ended : (month_end later).year ≡ later.year = unfold month_end in refl in
    let last : day_number (month_end later) * day_ms ≤ max_time =
      omega (arith, end_high, ended, years) in
    let day : day_number later * day_ms + t % day_ms ≤ max_time = omega (arith, high, years) in
    (
      day_number later * day_ms + t % day_ms,
      rw (add_utc_months, new_date-some (day_number (month_end later) * day_ms) last)
          (new_date-some (day_number later * day_ms + t % day_ms) day),
    )
