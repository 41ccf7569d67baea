-- ===== src/Entitlement/Policy.antt =====
-- calculateExpirationDate, and the check of an order item's policy snapshot in
-- issueEntitlementsForOrder (packages/database/src/domain/entitlement-engine.ts).
use d_n_i_p.Prelude.{
  ℕ, zero, suc, ◌+◌, ◌*◌, ℤ, pos, negsuc, to_ℕ, Bool, true, false, not, ◌&&◌, ◌||◌, Option, none,
  some, is_some, if◌then◌else◌,
}
use d_n_i_p.Entitlement.Model.{FulfillmentType}
use d_n_i_p.Entitlement.Calendar.{day_ms, new_date, add_utc_months}

pub record Policy : Type 0 where
  pub is_lifetime : Bool
  pub duration_days : Option ℤ
  pub duration_months : Option ℤ

-- `typeof n === "number" && n > 0`
abbrev pub is_positive : Option ℤ → Bool
is_positive (some (pos (suc n))) = true
is_positive _ = false

abbrev pub amount : Option ℤ → ℕ
amount none = 0
amount (some n) = to_ℕ n

-- The columns that hold a Date or null: none of the result is an Invalid Date, some none is null.
abbrev pub or_null : Option ℕ → Option (Option ℕ)
or_null none = none
or_null (some t) = some (some t)

-- `new Date(activatedAt.getTime() + days * 86400000)` for a positive number of days
unfoldable pub days_after : ℕ → Option ℤ → Option (Option ℕ)
unfolding new_date
days_after t days =
    if is_positive days then or_null (new_date (t + amount days * day_ms)) else some none

unfoldable pub calculate_expiration_date : ℕ → Policy → Option (Option ℕ)
unfolding new_date add_utc_months
calculate_expiration_date activated_at p =
    if p.is_lifetime
    then some none
    else if is_positive p.duration_days
    then or_null (new_date (activated_at + amount p.duration_days * day_ms))
    else if is_positive p.duration_months
    then or_null (add_utc_months activated_at (amount p.duration_months))
    else some none

-- The columns of an order item that the issue reads; a column is none where it is null.
pub record OrderItem : Type 0 where
  pub id : ℕ
  pub product_id : ℕ
  pub variant_id : ℕ
  pub fulfillment_type : FulfillmentType
  pub quantity : ℕ
  pub license_plan_id_at_purchase : Option ℕ
  pub is_lifetime : Bool
  pub duration_days : Option ℤ
  pub duration_months : Option ℤ
  pub max_activations : Option ℤ
  pub updates_days : Option ℤ
  pub support_days : Option ℤ
  pub snapshot_version : Option ℤ

pub data OrderStatus : Type 0 where
  pending_payment paid cancelled : OrderStatus

-- The errors of the issue, by their messages; a number is the id of the order or the item.
pub data IssueError : Type 0 where
  order_not_found : ℕ → IssueError
  order_not_paid : OrderStatus → IssueError
  missing_snapshot malformed_activations no_duration malformed_days malformed_months :
      ℕ → IssueError
  malformed_updates malformed_support polluted_rights : ℕ → IssueError
  invalid_date : ℕ → IssueError
  unsupported_version : (version : ℤ) (id : ℕ) → IssueError

-- A value that is there and not positive.
abbrev pub is_bad : Option ℤ → Bool
is_bad n = is_some n && not (is_positive n)

unfoldable pub plan_error : OrderItem → Option IssueError
plan_error i =
    if not (is_positive i.max_activations)
    then some (IssueError.malformed_activations i.id)
    else if not (i.is_lifetime || is_positive i.duration_days || is_positive i.duration_months)
    then some (IssueError.no_duration i.id)
    else if is_bad i.duration_days
    then some (IssueError.malformed_days i.id)
    else if is_bad i.duration_months
    then some (IssueError.malformed_months i.id)
    else if is_bad i.updates_days
    then some (IssueError.malformed_updates i.id)
    else if is_bad i.support_days
    then some (IssueError.malformed_support i.id)
    else none

unfoldable pub has_polluted_rights : OrderItem → Bool
has_polluted_rights i =
    i.is_lifetime
    || is_some i.duration_days
    || is_some i.duration_months
    || is_some i.max_activations
    || is_some i.updates_days
    || is_some i.support_days

-- `switch (item.snapshotVersion)`; a version that is null or 0 is no snapshot.
unfoldable pub snapshot_error : OrderItem → Option IssueError
unfolding plan_error has_polluted_rights
snapshot_error i = elim i.snapshot_version [
  | none ↦ some (IssueError.missing_snapshot i.id)
  | some (pos zero) ↦ some (IssueError.missing_snapshot i.id)
  | some (pos (suc zero)) ↦ elim i.license_plan_id_at_purchase [
    | some plan ↦ plan_error i
    | none ↦ if has_polluted_rights i then some (IssueError.polluted_rights i.id) else none
  ]
  | some (pos (suc (suc n))) ↦ some (IssueError.unsupported_version (pos (suc (suc n))) i.id)
  | some (negsuc n) ↦ some (IssueError.unsupported_version (negsuc n) i.id)
]

unfoldable pub policy : OrderItem → Policy
policy i = record {
  is_lifetime = i.is_lifetime;
  duration_days = i.duration_days;
  duration_months = i.duration_months;
}

-- The dates of an item's rights.
pub record ItemDates : Type 0 where
  pub expires_at : Option ℕ
  pub updates_until : Option ℕ
  pub support_until : Option ℕ

-- All three have to be dates or null.
unfoldable pub item_dates : ℕ → OrderItem → Option ItemDates
unfolding calculate_expiration_date days_after policy
item_dates now i = elim (calculate_expiration_date now (policy i)) [
  | none ↦ none
  | some e ↦ elim (days_after now i.updates_days) [
    | none ↦ none
    | some u ↦ elim (days_after now i.support_days) [
      | none ↦ none
      | some s ↦ some (record { expires_at = e; updates_until = u; support_until = s })
    ]
  ]
]
