-- ===== src/Allocation/Model.antt =====
-- The tables, errors and parameters of packages/database/src/domain/allocation-engine.ts.
use Prim.Native.String.{String}
use d_n_i_p.Prelude.{
  ℕ, ℤ, Bool, true, false, ◌&&◌, Option, none, some, List, [], ◌∷◌, ◌++◌, ◌==◌, find?, count_where,
}
use d_n_i_p.Text.{Text}
use d_n_i_p.Json.{Json, Fields, Segment, assert_safe}
use d_n_i_p.Entitlement.Model.{Entitlement, EntitlementStatus, FulfillmentType}

pub data AllocationStatus : Type 0 where
  pending active deactivation_pending deactivated rejected : AllocationStatus

pub data ProviderAccountStatus : Type 0 where
  active exhausted suspended : ProviderAccountStatus

pub record Provider : Type 0 where
  pub id : ℕ
  pub code : String
  pub is_active : Bool

pub record Account : Type 0 where
  pub id : ℕ
  pub provider_id : ℕ
  pub name : Text
  pub external_reference : Option Text
  pub total_capacity : ℤ
  pub status : ProviderAccountStatus
  pub metadata : Fields

pub record Allocation : Type 0 where
  pub id : ℕ
  pub entitlement_id : ℕ
  pub provider_id : ℕ
  pub provider_account_id : Option ℕ
  pub user_id : ℕ
  pub normalized_domain : ℕ
  pub status : AllocationStatus
  pub activated_at : Option ℕ
  pub deactivated_at : Option ℕ
  pub metadata : Fields

-- The audit rows, by `action`, with their `details`.
pub data Event : Type 0 where
  requested : (entitlement_id normalized_domain : ℕ) (code : String) (provider_id : ℕ) → Event
  activated : (entitlement_id account_id normalized_domain : ℕ) (notes : Option Text) → Event
  rejected : (entitlement_id : ℕ) (reason : Text) → Event
  deactivation_requested : (entitlement_id normalized_domain : ℕ) (reason : Option Text) → Event
  deactivated :
      (entitlement_id : ℕ) (account_id : Option ℕ) (normalized_domain : ℕ) (notes : Option Text)
      → Event
  deactivation_required :
      (entitlement_id : ℕ) (entitlement_status : EntitlementStatus) (account_id : Option ℕ)
      (normalized_domain worker_id : ℕ)
      → Event
  account_created :
      (provider_id : ℕ) (name : Text) (total_capacity : ℤ) (status : ProviderAccountStatus) → Event
  account_updated :
      (name : Text) (previous_capacity new_capacity : ℤ)
      (previous_status new_status : ProviderAccountStatus) (reference_changed : Bool)
      → Event

pub record AuditRow : Type 0 where
  pub entity_id : ℕ
  pub actor_id : Option ℕ
  pub event : Event

pub record Store : Type 0 where
  pub entitlements : List Entitlement
  pub providers : List Provider
  pub accounts : List Account
  pub allocations : List Allocation
  pub audit_rows : List AuditRow

-- The messages of AllocationEngineError.
pub data AllocationError : Type 0 where
  unsafe_metadata : List Segment → AllocationError
  invalid_domain : AllocationError
  entitlement_not_found entitlement_not_owned entitlement_is_revoked : AllocationError
  entitlement_is_expired entitlement_has_expired : AllocationError
  entitlement_not_active : EntitlementStatus → AllocationError
  wrong_fulfillment_type : FulfillmentType → AllocationError
  no_positive_seats : AllocationError
  capacity_reached : (max_activations : ℤ) (active : ℕ) → AllocationError
  already_allocated : ℕ → AllocationStatus → AllocationError
  provider_inactive : AllocationError
  domain_taken : ℕ → AllocationError
  allocation_not_found allocation_already_active allocation_not_owned : AllocationError
  invalid_transition : AllocationStatus → AllocationError
  parent_not_found parent_has_expired : AllocationError
  parent_not_active : EntitlementStatus → AllocationError
  seats_invalid account_not_found account_of_other_provider : AllocationError
  account_not_active : ProviderAccountStatus → AllocationError
  account_exhausted : (total_capacity : ℤ) (consumed : ℕ) → AllocationError
  name_required capacity_not_positive created_exhausted : AllocationError
  capacity_below_consumed : (new_capacity : ℤ) (consumed : ℕ) → AllocationError

abbrev pub is_pending : AllocationStatus → Bool
is_pending AllocationStatus.pending = true
is_pending _ = false

abbrev pub is_running : AllocationStatus → Bool
is_running AllocationStatus.active = true
is_running _ = false

abbrev pub is_deactivation_pending : AllocationStatus → Bool
is_deactivation_pending AllocationStatus.deactivation_pending = true
is_deactivation_pending _ = false

-- PROVIDER_CAPACITY_CONSUMING_STATUSES
abbrev pub consumes : AllocationStatus → Bool
consumes AllocationStatus.active = true
consumes AllocationStatus.deactivation_pending = true
consumes _ = false

-- PENDING, ACTIVE and DEACTIVATION_PENDING
abbrev pub is_open : AllocationStatus → Bool
is_open AllocationStatus.deactivated = false
is_open AllocationStatus.rejected = false
is_open _ = true

abbrev pub is_account : ℕ → Option ℕ → Bool
is_account i none = false
is_account i (some j) = j == i

abbrev pub on_account : ℕ → Allocation → Bool
on_account i a = is_account i a.provider_account_id && consumes a.status

abbrev pub open_on : ℕ → Allocation → Bool
open_on eid a = a.entitlement_id == eid && is_open a.status

abbrev pub open_at : ℕ → ℕ → Allocation → Bool
open_at eid domain a = a.entitlement_id == eid && a.normalized_domain == domain && is_open a.status

abbrev pub active_in : ℕ → ℕ → Allocation → Bool
active_in pid domain a =
    a.provider_id == pid && a.normalized_domain == domain && is_running a.status

abbrev pub consumed : ℕ → List Allocation → ℕ
consumed i = count_where (on_account i)

abbrev pub find_allocation : ℕ → List Allocation → Option Allocation
find_allocation i = find? (λ a. a.id == i)

abbrev pub find_account : ℕ → List Account → Option Account
find_account i = find? (λ a. a.id == i)

abbrev pub write_audit : ℕ → Option ℕ → Event → Store → Store
write_audit entity actor e s = record s {
  audit_rows = s.audit_rows ++ record { entity_id = entity; actor_id = actor; event = e } ∷ [];
}

-- `if (params.metadata !== undefined && params.metadata !== null) assertSafeMetadata(…)`
unfoldable pub metadata_error : Option Fields → Option AllocationError
metadata_error none = none
metadata_error (some fs) = elim (assert_safe (Json.object fs) []) [
  | none ↦ none
  | some path ↦ some (AllocationError.unsafe_metadata path)
]

-- `params.metadata || {}`
abbrev pub or_empty : Option Fields → Fields
or_empty none = Fields.end
or_empty (some fs) = fs

abbrev pub text_or_null : Option Text → Json
text_or_null none = Json.null
text_or_null (some []) = Json.null
text_or_null (some (c ∷ s)) = Json.string (c ∷ s)
