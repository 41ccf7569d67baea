-- ===== src/Entitlement/Rights.antt =====
-- What an item's snapshot gives: the rights of the entitlement that is issued for it.
use d_n_i_p.Prelude.{
  ℕ, ◌+◌, ◌*◌, ◌<◌, ◌≡◌, ◌⊎◌, inl, inr, true, false, ◌||◌, Option, none, some, arith, Bool-cases,
  Option-cases, pos, negsuc, ℤ,
}
use d_n_i_p.Entitlement.Model.{seats}
use d_n_i_p.Entitlement.Calendar.{day_ms, new_date, add_utc_months}
use d_n_i_p.Entitlement.Dates.{new_date_inv, add_utc_months_later}
use d_n_i_p.Entitlement.Ranges.{item_dates_inv}
use d_n_i_p.Entitlement.Policy.{
  Policy, OrderItem, ItemDates, item_dates, is_positive, amount, calculate_expiration_date, policy,
  days_after, snapshot_error, plan_error, has_polluted_rights,
}
use d_n_i_p.Entitlement.Issue.{Order, new_entitlement}

amount_pos : (n : Option ℤ) → is_positive n ≡ true → 0 < amount n
amount_pos none h = cc
amount_pos (some (pos n)) h = ground arith
amount_pos (some (negsuc n)) h = cc

-- A policy that is not for life and has a positive duration ends, and later than it begins, if
-- its end is a Date.
calculate_expiration_date_later :
    (t : ℕ) (p : Policy) (x : Option ℕ)
    → p.is_lifetime ≡ false
    → ((is_positive p.duration_days || is_positive p.duration_months) ≡ true)
    → calculate_expiration_date t p ≡ some x
    → (u : ℕ) × (x ≡ some u) × (t < u)
unfolding calculate_expiration_date
calculate_expiration_date_later t p x finite h k = elim (Bool-cases (is_positive p.duration_days)) [
  | inl e ↦
      let longer : ℕ = t + amount p.duration_days * day_ms in
      elim (Option-cases (new_date longer)) [
        | inl e2 ↦ absurd (ground arith)
        | inr (u, e2) ↦
            let (same, _) = new_date_inv longer u e2 in
            (u, ground arith, omega (arith, same, amount_pos p.duration_days e))
      ]
  | inr e ↦
      let months : is_positive p.duration_months ≡ true = ground arith in
      let n : ℕ = amount p.duration_months in
      elim (Option-cases (add_utc_months t n)) [
        | inl e2 ↦ absurd (ground arith)
        | inr (u, e2) ↦
            (u, ground arith, add_utc_months_later t n u (amount_pos p.duration_months months) e2)
      ]
]

plan_error-rights :
    (i : OrderItem)
    → plan_error i ≡ none
    → (is_positive i.max_activations ≡ true)
      × ((i.is_lifetime || is_positive i.duration_days || is_positive i.duration_months) ≡ true)
unfolding plan_error
plan_error-rights i h = elim (Bool-cases (is_positive i.max_activations)) [
  | inr e ↦ absurd (ground arith)
  | inl e ↦
      elim (Bool-cases
        (i.is_lifetime || is_positive i.duration_days || is_positive i.duration_months)) [
          | inr e2 ↦ absurd (ground arith)
          | inl e2 ↦ (e, e2)
        ]
]

seats_pos : (n : Option ℤ) → is_positive n ≡ true → 0 < seats n
seats_pos none h = cc
seats_pos (some (pos n)) h = ground arith
seats_pos (some (negsuc n)) h = cc

-- An item with a licence plan whose snapshot passes gives at least one seat, and an end that lies
-- after the start unless the plan is for life.
pub new_entitlement-plan :
    (o : Order) (i : OrderItem) (plan new_id now : ℕ) (d : ItemDates)
    → snapshot_error i ≡ none
    → item_dates now i ≡ some d
    → i.license_plan_id_at_purchase ≡ some plan
    → let e = new_entitlement o i new_id now d in
      (0 < seats e.max_activations)
      × (((i.is_lifetime ≡ true) × (e.expires_at ≡ none))
          ⊎ ((u : ℕ) × (e.expires_at ≡ some u) × (now < u)))
unfolding snapshot_error new_entitlement policy
new_entitlement-plan o i plan new_id now d h dated planned =
    let (ends, _, _) = item_dates_inv now i d dated in
    let passed : plan_error i ≡ none = ground arith in
    let (seated, lasts) = plan_error-rights i passed in
    (
      seats_pos i.max_activations seated,
      elim (Bool-cases i.is_lifetime) [
        | inl e ↦ inl (e, unfold calculate_expiration_date in ground arith)
        | inr e ↦ inr (
            calculate_expiration_date_later now (policy i) d.expires_at e (ground (arith, lasts))
              ends)
      ],
    )

unpolluted :
    (i : OrderItem)
    → has_polluted_rights i ≡ false
    → (i.is_lifetime ≡ false)
      × (i.duration_days ≡ none)
      × (i.duration_months ≡ none)
      × (i.max_activations ≡ none)
      × (i.updates_days ≡ none)
      × (i.support_days ≡ none)
unfolding has_polluted_rights
unpolluted i h =
    (ground arith, ground arith, ground arith, ground arith, ground arith, ground arith)

-- An item without a plan whose snapshot passes gives a right without end and without seats,
-- updates or support.
pub new_entitlement-no_plan :
    (o : Order) (i : OrderItem) (new_id now : ℕ) (d : ItemDates)
    → snapshot_error i ≡ none
    → item_dates now i ≡ some d
    → i.license_plan_id_at_purchase ≡ none
    → let e = new_entitlement o i new_id now d in
      (e.expires_at ≡ none)
      × (e.max_activations ≡ none)
      × (e.updates_until ≡ none)
      × (e.support_until ≡ none)
unfolding snapshot_error new_entitlement policy calculate_expiration_date days_after
new_entitlement-no_plan o i new_id now d h dated unplanned =
    let (ends, updated, supported) = item_dates_inv now i d dated in
    let clean : has_polluted_rights i ≡ false = ground arith in
    let (lifetime, days, months, seated, updates, support) = unpolluted i clean in
    (ground (arith, ends), seated, ground (arith, updated), ground (arith, supported))
