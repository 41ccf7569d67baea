-- ===== src/License/Model.antt =====
-- The tables, errors and answers of packages/database/src/domain/internal-license-engine.ts.
use d_n_i_p.Prelude.{
  ℕ, ℤ, Bool, true, false, ◌&&◌, Option, List, ◌++◌, [], ◌∷◌, ◌==◌, find?, count_where,
}
pub use d_n_i_p.Text.{Text}
use d_n_i_p.Entitlement.Model.{Entitlement, EntitlementStatus}

pub data LicenseStatus : Type 0 where
  active revoked : LicenseStatus

pub data LicenseActivationStatus : Type 0 where
  active deactivated : LicenseActivationStatus

pub record License : Type 0 where
  pub id : ℕ
  pub entitlement_id : ℕ
  pub user_id : ℕ
  pub product_id : ℕ
  pub variant_id : ℕ
  pub status : LicenseStatus
  pub key_hash : ℕ
  pub key_ciphertext : Text
  pub key_iv : Text
  pub key_auth_tag : Text
  pub key_last4 : Text
  pub created_at : ℕ
  pub updated_at : ℕ
  pub revoked_at : Option ℕ

pub record Activation : Type 0 where
  pub id : ℕ
  pub license_id : ℕ
  pub user_id : ℕ
  pub normalized_domain : ℕ
  pub status : LicenseActivationStatus
  pub activated_at : ℕ
  pub deactivated_at : Option ℕ
  pub last_validated_at : Option ℕ

pub data RevokeReason : Type 0 where
  administrative refund fraud support security other : RevokeReason

-- The audit log's rows: the action with its `details`. `actor_id` is none for the worker.
pub data Details : Type 0 where
  license_created :
      (entitlement_id user_id product_id variant_id : ℕ) (key_last4 : Text) (worker_id : ℕ)
      → Details
  license_activated license_deactivated :
      (license_id entitlement_id normalized_domain : ℕ) (key_last4 : Text) → Details
  license_key_revealed : (license_id entitlement_id : ℕ) (key_last4 : Text) → Details
  license_revoked :
      (license_id entitlement_id : ℕ) (key_last4 : Text) (reason_code : RevokeReason) → Details
  license_reconciled :
      (entitlement_id : ℕ) (entitlement_status : EntitlementStatus) (key_last4 : Text)
      (worker_id : ℕ)
      → Details

pub record Audit : Type 0 where
  pub entity_id : ℕ
  pub actor_id : Option ℕ
  pub details : Details

pub record Db : Type 0 where
  pub entitlements : List Entitlement
  pub licenses : List License
  pub activations : List Activation
  pub audits : List Audit

-- The messages of InternalLicenseEngineError.
pub data LicenseError : Type 0 where
  invalid_key_or_domain invalid_domain_format license_not_found : LicenseError
  license_has_been_revoked invalid_revoke_reason decryption_failed : LicenseError
  capacity_reached : (max_activations : ℤ) → LicenseError

unfoldable pub status_code : LicenseError → ℕ
status_code LicenseError.license_not_found = 404
status_code LicenseError.license_has_been_revoked = 409
status_code (LicenseError.capacity_reached m) = 409
status_code LicenseError.decryption_failed = 500
status_code _ = 400

-- What the engine calls: `normalizeDomain`, `normalizeLicenseKey`, `hashLicenseKey` and
-- `decryptLicenseKey` of packages/utils. A call that throws is `none`.
pub record Env : Type 0 where
  pub normalize_domain : Text → Option ℕ
  pub normalize_license_key : Text → Option Text
  pub hash_license_key : Text → ℕ
  pub decrypt_license_key : Text → Text → Text → Option Text
  pub mask_license_key : Text → Text

abbrev pub license_is_active : LicenseStatus → Bool
license_is_active LicenseStatus.active = true
license_is_active LicenseStatus.revoked = false

abbrev pub activation_is_active : LicenseActivationStatus → Bool
activation_is_active LicenseActivationStatus.active = true
activation_is_active LicenseActivationStatus.deactivated = false

abbrev pub find_by_hash : ℕ → List License → Option License
find_by_hash h = find? (λ l. l.key_hash == h)

abbrev pub find_license : ℕ → List License → Option License
find_license i = find? (λ l. l.id == i)

-- `where: { licenseId, status: "ACTIVE" }`
abbrev pub on_license : ℕ → Activation → Bool
on_license lid a = a.license_id == lid && activation_is_active a.status

-- `where: { licenseId, normalizedDomain }`
abbrev pub at_domain : ℕ → ℕ → Activation → Bool
at_domain lid domain a = a.license_id == lid && a.normalized_domain == domain

-- `where: { licenseId, normalizedDomain, status: "ACTIVE" }`
abbrev pub active_at : ℕ → ℕ → Activation → Bool
active_at lid domain a = at_domain lid domain a && activation_is_active a.status

abbrev pub active_count : ℕ → List Activation → ℕ
active_count lid = count_where (on_license lid)

abbrev pub log : Audit → Db → Db
log row db = record db { audits = db.audits ++ row ∷ [] }
