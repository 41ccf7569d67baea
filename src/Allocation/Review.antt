-- ===== src/Allocation/Review.antt =====
-- What an administrator decides: adminActivateAllocation, adminRejectAllocation and
-- adminConfirmDeactivated.
use d_n_i_p.Prelude.{
  ℕ, ℤ, pos, ◌+◌, Bool, true, false, not, ◌&&◌, Option, none, some, [], ◌∷◌, ◌==◌, leb_ℤ, find?,
  update_where, if◌then◌else◌, is_some,
}
use d_n_i_p.Text.{Text, codes}
use d_n_i_p.Json.{Json, Fields, put, spread}
use d_n_i_p.Tx.{Result, err, Tx, ◌>>=◌, ◌>>◌, pure, throw, gets, modify, check, found, transaction}
use d_n_i_p.Entitlement.Model.{
  Entitlement, is_active, is_external_managed, is_past, find_entitlement,
}
use d_n_i_p.Allocation.Model.{
  Allocation, AllocationStatus, Account, ProviderAccountStatus, Event, Store, AllocationError,
  is_pending, is_deactivation_pending, active_in, consumed, find_allocation, find_account,
  write_audit, metadata_error, or_empty, text_or_null,
}
use d_n_i_p.Allocation.Requests.{open_seats, raise_if}

pub record ActivateParams : Type 0 where
  pub allocation_id : ℕ
  pub provider_account_id : ℕ
  pub actor_id : ℕ
  pub notes : Option Text
  pub metadata : Option Fields

abbrev pub status_error : AllocationStatus → Option AllocationError
status_error AllocationStatus.pending = none
status_error AllocationStatus.active = some AllocationError.allocation_already_active
status_error s = some (AllocationError.invalid_transition s)

-- The checks of step 2 on the parent entitlement.
unfoldable pub parent_error : Entitlement → ℕ → Option AllocationError
parent_error e now =
    if not (is_active e.status)
    then some (AllocationError.parent_not_active e.status)
    else if is_past now e.expires_at
    then some AllocationError.parent_has_expired
    else if not (is_external_managed e.fulfillment_type)
    then some (AllocationError.wrong_fulfillment_type e.fulfillment_type)
    else elim (open_seats e.max_activations) [
      | none ↦ some AllocationError.seats_invalid
      | some m ↦ none
    ]

abbrev pub account_is_active : ProviderAccountStatus → Bool
account_is_active ProviderAccountStatus.active = true
account_is_active _ = false

-- The checks of step 3 on the account.
unfoldable pub account_error : Account → Allocation → Option AllocationError
account_error acc a =
    if not (account_is_active acc.status)
    then some (AllocationError.account_not_active acc.status)
    else if not (acc.provider_id == a.provider_id)
    then some AllocationError.account_of_other_provider
    else none

unfoldable pub set_account_status : ℕ → ProviderAccountStatus → Store → Store
set_account_status i st s = record s {
  accounts = update_where (λ x. x.id == i) (λ x. record x { status = st }) s.accounts;
}

-- `...(params.notes ? { adminActivationNotes: params.notes } : {})`
abbrev pub noted : Option Text → Fields → Fields
noted none fs = fs
noted (some []) fs = fs
noted (some (c ∷ t)) fs = put (codes "adminActivationNotes") (Json.string (c ∷ t)) fs

unfoldable pub activation_metadata : ActivateParams → Fields → Fields
activation_metadata p fs =
    put (codes "fulfillmentMode") (Json.string (codes "MANUAL_EXTERNAL"))
      (noted p.notes (spread fs (or_empty p.metadata)))

unfoldable pub start : ActivateParams → Account → ℕ → Allocation → Allocation
start p acc now a = record a {
  status = AllocationStatus.active;
  provider_account_id = some acc.id;
  activated_at = some now;
  metadata = activation_metadata p a.metadata;
}

-- Step 4. The account is marked EXHAUSTED, and then the transaction is thrown out.
unfoldable pub exhaust : Account → ℕ → Tx Store AllocationError (Unit {0})
exhaust acc count = do
  modify (set_account_status acc.id ProviderAccountStatus.exhausted)
  throw (AllocationError.account_exhausted acc.total_capacity count)

-- Steps 5 to 7: the check for the domain, the transition, and the account that is now full.
unfoldable pub start_tx :
    ActivateParams → Allocation → Account → ℕ → ℕ → Tx Store AllocationError Allocation
start_tx p a acc count now = do
  taken ← gets (λ s.
      find? (λ x. active_in a.provider_id a.normalized_domain x && not (x.id == a.id))
        s.allocations)
  check (not (is_some taken)) (AllocationError.domain_taken a.normalized_domain)
  modify (λ s. record s {
    allocations = update_where (λ x. x.id == a.id) (start p acc now) s.allocations;
  })
  modify (
      if leb_ℤ acc.total_capacity (pos (count + 1))
      then set_account_status acc.id ProviderAccountStatus.exhausted
      else λ s. s)
  modify (
      write_audit a.id (some p.actor_id)
        (Event.activated a.entitlement_id acc.id a.normalized_domain p.notes))
  pure (start p acc now a)

unfoldable pub activate_allocation_tx : ActivateParams → ℕ → Tx Store AllocationError Allocation
activate_allocation_tx p now = do
  row ← gets (λ s. find_allocation p.allocation_id s.allocations)
  a ← found row AllocationError.allocation_not_found
  raise_if (status_error a.status)
  parent ← gets (λ s. find_entitlement a.entitlement_id s.entitlements)
  e ← found parent AllocationError.parent_not_found
  raise_if (parent_error e now)
  account ← gets (λ s. find_account p.provider_account_id s.accounts)
  acc ← found account AllocationError.account_not_found
  raise_if (account_error acc a)
  count ← gets (λ s. consumed acc.id s.allocations)
  if leb_ℤ acc.total_capacity (pos count)
      then (exhaust acc count >> start_tx p a acc count now)
      else start_tx p a acc count now

-- adminActivateAllocation
unfoldable pub activate_allocation :
    ActivateParams → ℕ → Store → Result AllocationError Allocation × Store
activate_allocation p now s = elim (metadata_error p.metadata) [
  | some e ↦ (err e, s)
  | none ↦ transaction (activate_allocation_tx p now) s
]

pub record RejectParams : Type 0 where
  pub allocation_id : ℕ
  pub reason : Text
  pub actor_id : ℕ
  pub metadata : Option Fields

unfoldable pub turn_down : RejectParams → Allocation → Allocation
turn_down p a = record a {
  status = AllocationStatus.rejected;
  metadata =
      put (codes "rejectionReason") (Json.string p.reason)
        (spread a.metadata (or_empty p.metadata));
}

unfoldable pub reject_tx : RejectParams → Tx Store AllocationError Allocation
reject_tx p = do
  row ← gets (λ s. find_allocation p.allocation_id s.allocations)
  a ← found row AllocationError.allocation_not_found
  check (is_pending a.status) (AllocationError.invalid_transition a.status)
  modify
      (λ s. record s { allocations = update_where (λ x. x.id == a.id) (turn_down p) s.allocations })
  modify (write_audit a.id (some p.actor_id) (Event.rejected a.entitlement_id p.reason))
  pure (turn_down p a)

-- adminRejectAllocation
unfoldable pub reject_allocation : RejectParams → Store → Result AllocationError Allocation × Store
reject_allocation p s = elim (metadata_error p.metadata) [
  | some e ↦ (err e, s)
  | none ↦ transaction (reject_tx p) s
]

pub record ConfirmParams : Type 0 where
  pub allocation_id : ℕ
  pub actor_id : ℕ
  pub notes : Option Text
  pub metadata : Option Fields

unfoldable pub confirm : ConfirmParams → ℕ → Allocation → Allocation
confirm p now a = record a {
  status = AllocationStatus.deactivated;
  deactivated_at = some now;
  metadata = put (codes "deactivatedBy") (Json.named p.actor_id) (
      put (codes "adminDeactivationNotes") (text_or_null p.notes)
        (spread a.metadata (or_empty p.metadata)));
}

-- The status that follows from the seats in use. An account that is SUSPENDED stays so.
unfoldable pub next_status : ProviderAccountStatus → ℤ → ℕ → ProviderAccountStatus
next_status ProviderAccountStatus.suspended total remaining = ProviderAccountStatus.suspended
next_status st total remaining =
    if leb_ℤ total (pos remaining)
    then ProviderAccountStatus.exhausted
    else ProviderAccountStatus.active

-- `if (lockedAccount) …`, after the allocation is updated. A status that is the same is written
-- again here, which changes nothing.
unfoldable pub settle_account : Option ℕ → Store → Store
settle_account none s = s
settle_account (some i) s = elim (find_account i s.accounts) [
  | none ↦ s
  | some acc ↦
      set_account_status acc.id
        (next_status acc.status acc.total_capacity (consumed acc.id s.allocations)) s
]

unfoldable pub confirm_tx : ConfirmParams → ℕ → Tx Store AllocationError Allocation
confirm_tx p now = do
  row ← gets (λ s. find_allocation p.allocation_id s.allocations)
  a ← found row AllocationError.allocation_not_found
  check (is_deactivation_pending a.status) (AllocationError.invalid_transition a.status)
  modify (λ s. record s {
    allocations = update_where (λ x. x.id == a.id) (confirm p now) s.allocations;
  })
  modify (settle_account a.provider_account_id)
  modify (
      write_audit a.id (some p.actor_id)
        (Event.deactivated a.entitlement_id a.provider_account_id a.normalized_domain p.notes))
  pure (confirm p now a)

-- adminConfirmDeactivated
unfoldable pub confirm_deactivated :
    ConfirmParams → ℕ → Store → Result AllocationError Allocation × Store
confirm_deactivated p now s = elim (metadata_error p.metadata) [
  | some e ↦ (err e, s)
  | none ↦ transaction (confirm_tx p now) s
]
