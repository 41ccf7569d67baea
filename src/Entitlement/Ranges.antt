-- ===== src/Entitlement/Ranges.antt =====
-- The dates of an item's rights (packages/database/src/domain/entitlement-engine.ts): what they
-- are made of, and amounts that are small enough for a Date.
use d_n_i_p.Prelude.{
  ℕ, ◌+◌, ◌*◌, ◌≤◌, ◌≡◌, refl, inl, inr, true, Bool, ◌&&◌, Option, none, some, leb, arith,
  Bool-cases, Option-cases, ℤ,
}
use d_n_i_p.Entitlement.Calendar.{day_ms, max_time}
use d_n_i_p.Entitlement.Dates.{new_date-some, add_utc_months-some}
use d_n_i_p.Entitlement.Policy.{
  Policy, OrderItem, ItemDates, is_positive, amount, calculate_expiration_date, policy, days_after,
  item_dates,
}

-- The dates are those of the three calculations.
pub item_dates_inv :
    (now : ℕ) (i : OrderItem) (d : ItemDates)
    → item_dates now i ≡ some d
    → (calculate_expiration_date now (policy i) ≡ some d.expires_at)
      × (days_after now i.updates_days ≡ some d.updates_until)
      × (days_after now i.support_days ≡ some d.support_until)
unfolding item_dates
item_dates_inv now i d h = elim (Option-cases (calculate_expiration_date now (policy i))) [
  | inl e ↦ absurd (ground arith)
  | inr (x, e) ↦ elim (Option-cases (days_after now i.updates_days)) [
    | inl e2 ↦ absurd (ground arith)
    | inr (y, e2) ↦ elim (Option-cases (days_after now i.support_days)) [
      | inl e3 ↦ absurd (ground arith)
      | inr (z, e3) ↦ (ground arith, ground arith, ground arith)
    ]
  ]
]

-- At most ten million days and 300000 months.
abbrev pub is_short : (duration_days duration_months updates_days support_days : Option ℤ) → Bool
is_short d m u s =
    leb (amount d) 10000000
    && leb (amount m) 300000
    && leb (amount u) 10000000
    && leb (amount s) 10000000

days_after-some :
    (t : ℕ) (n : Option ℤ)
    → t ≤ 4000000000000000
    → amount n ≤ 10000000
    → (x : Option ℕ) × (days_after t n ≡ some x)
unfolding days_after
days_after-some t n h k = elim (Bool-cases (is_positive n)) [
  | inr e ↦ (none, rw (days_after, e) refl)
  | inl e ↦
      let within : t + amount n * day_ms ≤ max_time = omega (arith, h, k) in
      (
        some (t + amount n * day_ms),
        rw (days_after, e, new_date-some (t + amount n * day_ms) within) refl,
      )
]

calculate_expiration_date-some :
    (t : ℕ) (p : Policy)
    → t ≤ 4000000000000000
    → amount p.duration_days ≤ 10000000
    → amount p.duration_months ≤ 300000
    → (x : Option ℕ) × (calculate_expiration_date t p ≡ some x)
unfolding calculate_expiration_date
calculate_expiration_date-some t p h k l = elim (Bool-cases p.is_lifetime) [
  | inl e ↦ (none, rw (calculate_expiration_date, e) refl)
  | inr e ↦ elim (Bool-cases (is_positive p.duration_days)) [
    | inl e2 ↦
        let within : t + amount p.duration_days * day_ms ≤ max_time = omega (arith, h, k) in
        (
          some (t + amount p.duration_days * day_ms),
          rw
              (
                calculate_expiration_date,
                e,
                e2,
                new_date-some (t + amount p.duration_days * day_ms) within,
              )
              refl,
        )
    | inr e2 ↦ elim (Bool-cases (is_positive p.duration_months)) [
      | inl e3 ↦
          let (u, made) = add_utc_months-some t (amount p.duration_months) h l in
          (some u, rw (calculate_expiration_date, e, e2, e3, made) refl)
      | inr e3 ↦ (none, rw (calculate_expiration_date, e, e2, e3) refl)
    ]
  ]
]

-- Short amounts at a time up to 4e15 have their dates.
pub item_dates-some :
    (now : ℕ) (i : OrderItem)
    → now ≤ 4000000000000000
    → is_short i.duration_days i.duration_months i.updates_days i.support_days ≡ true
    → (d : ItemDates) × (item_dates now i ≡ some d)
unfolding item_dates policy
item_dates-some now i h short =
    let (e, e1) = calculate_expiration_date-some now (policy i) h (ground arith) (ground arith) in
    let (u, e2) = days_after-some now i.updates_days h (ground arith) in
    let (s, e3) = days_after-some now i.support_days h (ground arith) in
    (record { expires_at = e; updates_until = u; support_until = s }, ground arith)
