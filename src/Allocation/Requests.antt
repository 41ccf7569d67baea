-- ===== src/Allocation/Requests.antt =====
-- requestDomainAllocation and requestAllocationDeactivation.
use Prim.Native.String.{String}
use text.Mathlib.Text.{◌==◌ as str_eq}
use d_n_i_p.Prelude.{
  ℕ, ℤ, pos, Bool, false, not, ◌&&◌, Option, none, some, List, [], ◌∷◌, ◌++◌, ◌==◌, leb_ℤ, ltb,
  find?, count_where, update_where, if◌then◌else◌, is_some,
}
use d_n_i_p.Text.{Text, codes}
use d_n_i_p.Json.{Json, Fields, put}
use d_n_i_p.Tx.{Result, ok, err, Tx, ◌>>=◌, ◌>>◌, pure, gets, modify, check, found, transaction}
use d_n_i_p.Entitlement.Model.{
  Entitlement, EntitlementStatus, is_external_managed, find_entitlement,
}
use d_n_i_p.Allocation.Model.{
  Allocation, AllocationStatus, Provider, Event, Store, AllocationError, is_running, open_on,
  open_at, active_in, find_allocation, write_audit, metadata_error, or_empty, text_or_null,
}

pub record RequestParams : Type 0 where
  pub entitlement_id : ℕ
  pub user_id : ℕ
  pub domain : Text
  pub provider_code : Option String
  pub metadata : Option Fields

-- `params.providerCode || "ELEMENTOR"`
abbrev pub code_or_default : Option String → String
code_or_default none = "ELEMENTOR"
code_or_default (some s) = if str_eq s "" then "ELEMENTOR" else s

-- `expires_at && expires_at < now`
abbrev pub is_before : ℕ → Option ℕ → Bool
is_before now none = false
is_before now (some t) = ltb t now

-- Checks 2 to 5 on the locked entitlement, in the order of the code; none if all pass.
unfoldable pub entitlement_error : Entitlement → ℕ → ℕ → Option AllocationError
entitlement_error e user_id now =
    if not (e.user_id == user_id)
    then some AllocationError.entitlement_not_owned
    else elim e.status [
      | EntitlementStatus.revoked ↦ some AllocationError.entitlement_is_revoked
      | EntitlementStatus.expired ↦ some AllocationError.entitlement_is_expired
      | EntitlementStatus.active ↦
          if is_before now e.expires_at
          then some AllocationError.entitlement_has_expired
          else if is_external_managed e.fulfillment_type
          then none
          else some (AllocationError.wrong_fulfillment_type e.fulfillment_type)
    ]

unfoldable pub open_seats : Option ℤ → Option ℤ
open_seats none = none
open_seats (some m) = if leb_ℤ m (pos 0) then none else some m

-- Throws the error if there is one.
abbrev pub raise_if : Option AllocationError → Tx Store AllocationError (Unit {0})
raise_if none s = ok (tt, s)
raise_if (some e) s = err e

unfoldable pub new_allocation : RequestParams → ℕ → ℕ → Provider → ℕ → Allocation
new_allocation p eid domain v new_id = record {
  id = new_id;
  entitlement_id = eid;
  provider_id = v.id;
  provider_account_id = none;
  user_id = p.user_id;
  normalized_domain = domain;
  status = AllocationStatus.pending;
  activated_at = none;
  deactivated_at = none;
  metadata = or_empty p.metadata;
}

-- Checks 6 to 9, against the other allocations and the providers; the answer is the provider.
unfoldable pub room_for :
    ℕ → ℕ → ℤ → String → List Provider → List Allocation → Result AllocationError Provider
room_for eid domain m code providers allocs =
    if leb_ℤ m (pos (count_where (open_on eid) allocs))
    then err (AllocationError.capacity_reached m (count_where (open_on eid) allocs))
    else elim (find? (open_at eid domain) allocs) [
      | some a ↦ err (AllocationError.already_allocated domain a.status)
      | none ↦ elim (find? (λ v. str_eq v.code code) providers) [
        | none ↦ err AllocationError.provider_inactive
        | some v ↦
            if not v.is_active
            then err AllocationError.provider_inactive
            else if is_some (find? (active_in v.id domain) allocs)
            then err (AllocationError.domain_taken domain)
            else ok v
      ]
    ]

abbrev pub lift : {A : Type 0} → Result AllocationError A → Tx Store AllocationError A
lift (ok a) s = ok (a, s)
lift (err e) s = err e

unfoldable pub request_tx : RequestParams → ℕ → ℕ → ℕ → Tx Store AllocationError Allocation
request_tx p domain new_id now = do
  row ← gets (λ s. find_entitlement p.entitlement_id s.entitlements)
  e ← found row AllocationError.entitlement_not_found
  raise_if (entitlement_error e p.user_id now)
  m ← found (open_seats e.max_activations) AllocationError.no_positive_seats
  room ←
      gets (λ s. room_for e.id domain m (code_or_default p.provider_code) s.providers s.allocations)
  v ← lift room
  modify
      (λ s. record s { allocations = s.allocations ++ new_allocation p e.id domain v new_id ∷ [] })
  modify (
      write_audit new_id (some p.user_id)
        (Event.requested e.id domain (code_or_default p.provider_code) v.id))
  pure (new_allocation p e.id domain v new_id)

-- requestDomainAllocation. `normalize_domain` is none where normalizeDomain throws.
unfoldable pub request_allocation :
    (Text → Option ℕ) → RequestParams → ℕ → ℕ → Store → Result AllocationError Allocation × Store
request_allocation normalize_domain p new_id now s = elim (metadata_error p.metadata) [
  | some e ↦ (err e, s)
  | none ↦ elim (normalize_domain p.domain) [
    | none ↦ (err AllocationError.invalid_domain, s)
    | some domain ↦ transaction (request_tx p domain new_id now) s
  ]
]

pub record DeactivationParams : Type 0 where
  pub allocation_id : ℕ
  pub actor_id : ℕ
  pub is_customer : Bool
  pub reason : Option Text
  pub metadata : Option Fields

-- `iso now` is `new Date().toISOString()`.
unfoldable pub deactivation_metadata : (ℕ → Text) → DeactivationParams → ℕ → Fields → Fields
deactivation_metadata iso p now fs = put (codes "deactivationRequestedAt") (Json.string (iso now)) (
    put (codes "deactivationReason") (text_or_null p.reason)
      (put (codes "deactivationRequestedBy") (Json.named p.actor_id) fs))

unfoldable pub leave_pending : (ℕ → Text) → DeactivationParams → ℕ → Allocation → Allocation
leave_pending iso p now a = record a {
  status = AllocationStatus.deactivation_pending;
  metadata = deactivation_metadata iso p now a.metadata;
}

unfoldable pub deactivation_tx :
    (ℕ → Text) → DeactivationParams → ℕ → Tx Store AllocationError Allocation
deactivation_tx iso p now = do
  row ← gets (λ s. find_allocation p.allocation_id s.allocations)
  a ← found row AllocationError.allocation_not_found
  check (not (p.is_customer && not (a.user_id == p.actor_id))) AllocationError.allocation_not_owned
  check (is_running a.status) (AllocationError.invalid_transition a.status)
  modify (λ s. record s {
    allocations = update_where (λ x. x.id == a.id) (leave_pending iso p now) s.allocations;
  })
  modify (
      write_audit a.id (some p.actor_id)
        (Event.deactivation_requested a.entitlement_id a.normalized_domain p.reason))
  pure (leave_pending iso p now a)

-- requestAllocationDeactivation
unfoldable pub request_deactivation :
    (ℕ → Text) → DeactivationParams → ℕ → Store → Result AllocationError Allocation × Store
request_deactivation iso p now s = elim (metadata_error p.metadata) [
  | some e ↦ (err e, s)
  | none ↦ transaction (deactivation_tx iso p now) s
]
