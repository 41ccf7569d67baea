-- ===== src/License/Activation.antt =====
-- activateInternalLicense, validateInternalLicense and deactivateInternalLicense. One call reads
-- the clock as one `now`; `new_id` is the id that the database gives to a created row.
use mathlib.Core.Option
use d_n_i_p.Prelude.{
  ℕ, ℤ, pos, Bool, true, not, ◌&&◌, Option, none, some, List, [], ◌∷◌, ◌++◌, ◌==◌, leb_ℤ,
  if◌then◌else◌, find?, count_where, update_where, ltb,
}
use d_n_i_p.Tx.{Result, ok, err, Tx, ◌>>=◌, ◌>>◌, pure, gets, modify, check, found, transaction}
use d_n_i_p.Entitlement.Model.{
  Entitlement, is_active, is_internal_license, is_past, find_entitlement,
}
use d_n_i_p.License.Model.{
  Text, License, LicenseActivationStatus, Activation, Audit, Details, Db, Env, LicenseError,
  license_is_active, find_by_hash, active_at, at_domain, active_count, log,
}

pub record Params : Type 0 where
  pub license_key : Text
  pub domain : Text

pub record ActivateResponse : Type 0 where
  pub valid : Bool
  pub status : LicenseActivationStatus
  pub domain : ℕ
  pub activated_at : ℕ
  pub expires_at : Option ℕ
  pub updates_until : Option ℕ
  pub support_until : Option ℕ

-- `{ valid: false }`, or the answer for a valid activation.
pub data ValidateResponse : Type 0 where
  invalid : ValidateResponse
  valid : (domain : ℕ) (expires_at updates_until support_until : Option ℕ) → ValidateResponse

pub record DeactivateResponse : Type 0 where
  pub success : Bool
  pub domain : ℕ
  pub deactivated_at : ℕ

-- The domain and the hash of the normalized key, or none if either does not normalize.
unfoldable pub request_of : Env → Params → Option (ℕ × ℕ)
request_of env p = elim (env.normalize_domain p.domain) [
  | none ↦ none
  | some domain ↦ elim (env.normalize_license_key p.license_key) [
    | none ↦ none
    | some key ↦ some (domain, env.hash_license_key key)
  ]
]

-- The checks of step 5 on the locked rows, in the order of the code.
unfoldable pub rights_hold : License → Entitlement → ℕ → Bool
rights_hold l e now =
    license_is_active l.status
    && is_active e.status
    && is_internal_license e.fulfillment_type
    && not (is_past now e.expires_at)

-- `max_activations`, if it is neither null nor at most 0.
unfoldable pub positive_seats : Option ℤ → Option ℤ
positive_seats none = none
positive_seats (some m) = if leb_ℤ m (pos 0) then none else some m

unfoldable pub reactivate : ℕ → Activation → Activation
reactivate now a = record a {
  status = LicenseActivationStatus.active;
  activated_at = now;
  deactivated_at = none;
  last_validated_at = some now;
}

unfoldable pub new_activation : License → ℕ → ℕ → ℕ → Activation
new_activation l domain new_id now = record {
  id = new_id;
  license_id = l.id;
  user_id = l.user_id;
  normalized_domain = domain;
  status = LicenseActivationStatus.active;
  activated_at = now;
  deactivated_at = none;
  last_validated_at = some now;
}

-- Step 8: a known domain is activated again, a new one gets a row.
unfoldable pub seat : License → ℕ → ℕ → ℕ → List Activation → List Activation
seat l domain new_id now acts = elim (find? (at_domain l.id domain) acts) [
  | some r ↦ update_where (λ a. a.id == r.id) (reactivate now) acts
  | none ↦ acts ++ new_activation l domain new_id now ∷ []
]

unfoldable pub seat_id : License → ℕ → ℕ → List Activation → ℕ
seat_id l domain new_id acts = elim (find? (at_domain l.id domain) acts) [
  | some r ↦ r.id
  | none ↦ new_id
]

unfoldable pub activated : License → Entitlement → ℕ → ℕ → ActivateResponse
activated l e domain at = record {
  valid = true;
  status = LicenseActivationStatus.active;
  domain = domain;
  activated_at = at;
  expires_at = e.expires_at;
  updates_until = e.updates_until;
  support_until = e.support_until;
}

unfoldable pub activation_audit : License → ℕ → ℕ → Audit
activation_audit l domain entity = record {
  entity_id = entity;
  actor_id = some l.user_id;
  details = Details.license_activated l.id l.entitlement_id domain l.key_last4;
}

-- Steps 7 to 10: the capacity check, the seat, and its audit row.
unfoldable pub take_seat :
    License → Entitlement → ℤ → ℕ → ℕ → ℕ → Tx Db LicenseError ActivateResponse
take_seat l e m domain new_id now = do
  count ← gets (λ db. active_count l.id db.activations)
  check (not (leb_ℤ m (pos count))) (LicenseError.capacity_reached m)
  entity ← gets (λ db. seat_id l domain new_id db.activations)
  modify (λ db. record db { activations = seat l domain new_id now db.activations })
  modify (log (activation_audit l domain entity))
  pure (activated l e domain now)

unfoldable pub activate_tx : ℕ → ℕ → ℕ → ℕ → Tx Db LicenseError ActivateResponse
activate_tx domain hash new_id now = do
  row ← gets (λ db. find_by_hash hash db.licenses)
  l ← found row LicenseError.invalid_key_or_domain
  parent ← gets (λ db. find_entitlement l.entitlement_id db.entitlements)
  e ← found parent LicenseError.invalid_key_or_domain
  check (rights_hold l e now) LicenseError.invalid_key_or_domain
  m ← found (positive_seats e.max_activations) LicenseError.invalid_key_or_domain
  existing ← gets (λ db. find? (active_at l.id domain) db.activations)
  elim existing [
    | some a ↦ pure (activated l e domain a.activated_at)
    | none ↦ take_seat l e m domain new_id now
  ]

-- activateInternalLicense
unfoldable pub activate : Env → Params → ℕ → ℕ → Db → Result LicenseError ActivateResponse × Db
activate env p new_id now db = elim (request_of env p) [
  | none ↦ (err LicenseError.invalid_key_or_domain, db)
  | some (domain, hash) ↦ transaction (activate_tx domain hash new_id now) db
]

-- The rows that validateInternalLicense reads, as long as each of its checks passes.
unfoldable pub validated : ℕ → ℕ → ℕ → Db → Option (License × Entitlement × Activation)
validated domain hash now db = elim (find_by_hash hash db.licenses) [
  | none ↦ none
  | some l ↦ elim (find_entitlement l.entitlement_id db.entitlements) [
    | none ↦ none
    | some e ↦
        if rights_hold l e now
        then Option.map (λ a. (l, e, a)) (find? (active_at l.id domain) db.activations)
        else none
  ]
]

-- `data: { lastValidatedAt: new Date() }`
unfoldable pub stamp : ℕ → Activation → Activation
stamp now a = record a { last_validated_at = some now }

-- validateInternalLicense. Its timestamp update may fail; `stamped` says whether it went through.
unfoldable pub validate : Env → Params → Bool → ℕ → Db → ValidateResponse × Db
validate env p stamped now db = elim (request_of env p) [
  | none ↦ (invalid, db)
  | some (domain, hash) ↦ elim (validated domain hash now db) [
    | none ↦ (invalid, db)
    | some (l, e, a) ↦ (
      valid domain e.expires_at e.updates_until e.support_until,
      if stamped
          then record db {
            activations = update_where (λ b. b.id == a.id) (stamp now) db.activations;
          }
          else db,
    )
  ]
]

-- `data: { status: "DEACTIVATED", deactivatedAt }`
unfoldable pub deactivated_row : ℕ → Activation → Activation
deactivated_row now a = record a {
  status = LicenseActivationStatus.deactivated;
  deactivated_at = some now;
}

unfoldable pub deactivation_audit : License → ℕ → Option ℕ → List Activation → Audit
deactivation_audit l domain actor acts = record {
  entity_id = elim (find? (at_domain l.id domain) acts) [ some a ↦ a.id | none ↦ l.id ];
  actor_id = actor;
  details = Details.license_deactivated l.id l.entitlement_id domain l.key_last4;
}

-- The compare-and-swap that both deactivations make: it writes an audit row only if it moved one.
unfoldable pub release : License → ℕ → Option ℕ → ℕ → Db → Db
release l domain actor now db =
    if ltb 0 (count_where (active_at l.id domain) db.activations)
    then log (deactivation_audit l domain actor freed) (record db { activations = freed })
    else record db { activations = freed }
  where
    freed : List Activation
    freed = update_where (active_at l.id domain) (deactivated_row now) db.activations

-- deactivateInternalLicense
unfoldable pub deactivate : Env → Params → ℕ → Db → Result LicenseError DeactivateResponse × Db
deactivate env p now db = elim (request_of env p) [
  | none ↦ (err LicenseError.invalid_key_or_domain, db)
  | some (domain, hash) ↦ (
    ok (record { success = true; domain = domain; deactivated_at = now }),
    elim (find_by_hash hash db.licenses) [
      | none ↦ db
      | some l ↦ release l domain (some l.user_id) now db
    ],
  )
]
