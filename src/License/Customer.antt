-- ===== src/License/Customer.antt =====
-- What a signed-in customer may do with a licence: customerDeactivateDomain,
-- customerRevealLicenseKey, listCustomerLicenses and getCustomerLicense.
use d_n_i_p.Prelude.{
  ℕ, ℤ, Bool, true, ◌&&◌, Option, none, some, List, map, ◌==◌, find?, filter_where, order_desc,
}
use d_n_i_p.Tx.{Result, ok, err, Tx, ◌>>=◌, ◌>>◌, pure, gets, modify, check, found, transaction}
use d_n_i_p.Entitlement.Model.{Entitlement, find_entitlement}
use d_n_i_p.License.Model.{
  Text, License, LicenseStatus, Details, Db, Env, LicenseError, license_is_active, active_count,
  log,
}
use d_n_i_p.License.Activation.{DeactivateResponse, release}

-- `where: { id: licenseId, userId }`
abbrev pub owned_by : ℕ → ℕ → License → Bool
owned_by lid uid l = l.id == lid && l.user_id == uid

unfoldable pub customer_deactivate_tx : ℕ → ℕ → ℕ → ℕ → Tx Db LicenseError DeactivateResponse
customer_deactivate_tx license_id user_id domain now = do
  row ← gets (λ db. find? (owned_by license_id user_id) db.licenses)
  l ← found row LicenseError.license_not_found
  check (license_is_active l.status) LicenseError.license_has_been_revoked
  modify (release l domain (some user_id) now)
  pure (record { success = true; domain = domain; deactivated_at = now })

-- customerDeactivateDomain
unfoldable pub customer_deactivate :
    Env → ℕ → ℕ → Text → ℕ → Db → Result LicenseError DeactivateResponse × Db
customer_deactivate env license_id user_id raw now db = elim (env.normalize_domain raw) [
  | none ↦ (err LicenseError.invalid_domain_format, db)
  | some domain ↦ transaction (customer_deactivate_tx license_id user_id domain now) db
]

pub record RevealResponse : Type 0 where
  pub license_id : ℕ
  pub license_key : Text
  pub key_masked : Text

-- customerRevealLicenseKey, which is no transaction: all that it writes is the last audit row.
unfoldable pub customer_reveal : Env → ℕ → ℕ → Db → Result LicenseError RevealResponse × Db
customer_reveal env license_id user_id db = elim (find? (owned_by license_id user_id) db.licenses) [
  | none ↦ (err LicenseError.license_not_found, db)
  | some l ↦ elim (env.decrypt_license_key l.key_ciphertext l.key_iv l.key_auth_tag) [
    | none ↦ (err LicenseError.decryption_failed, db)
    | some key ↦ (
      ok (record { license_id = l.id; license_key = key; key_masked = env.mask_license_key key }),
      log
          (record {
            entity_id = l.id;
            actor_id = some user_id;
            details = Details.license_key_revealed l.id l.entitlement_id l.key_last4;
          })
          db,
    )
  ]
]

-- CustomerLicenseDto, with the last four characters that its `keyMasked` shows.
pub record CustomerLicenseDto : Type 0 where
  pub id : ℕ
  pub product_id : ℕ
  pub variant_id : ℕ
  pub status : LicenseStatus
  pub masked_last4 : Text
  pub max_activations : Option ℤ
  pub active_activations : ℕ
  pub expires_at : Option ℕ
  pub updates_until : Option ℕ
  pub support_until : Option ℕ
  pub created_at : ℕ

abbrev parent_field : {A : Type 0} → (Entitlement → Option A) → License → Db → Option A
parent_field f l db = elim (find_entitlement l.entitlement_id db.entitlements) [
  | none ↦ none
  | some e ↦ f e
]

unfoldable pub customer_dto : Db → License → CustomerLicenseDto
customer_dto db l = record {
  id = l.id;
  product_id = l.product_id;
  variant_id = l.variant_id;
  status = l.status;
  masked_last4 = l.key_last4;
  max_activations = parent_field (λ e. e.max_activations) l db;
  active_activations = active_count l.id db.activations;
  expires_at = parent_field (λ e. e.expires_at) l db;
  updates_until = parent_field (λ e. e.updates_until) l db;
  support_until = parent_field (λ e. e.support_until) l db;
  created_at = l.created_at;
}

-- listCustomerLicenses
unfoldable pub list_customer_licenses : ℕ → Db → List CustomerLicenseDto
list_customer_licenses user_id db =
    map (customer_dto db)
      (order_desc License.created_at (filter_where (λ l. l.user_id == user_id) db.licenses))

-- getCustomerLicense
unfoldable pub get_customer_license : ℕ → ℕ → Db → Result LicenseError CustomerLicenseDto
get_customer_license license_id user_id db =
    elim (find? (owned_by license_id user_id) db.licenses) [
      | none ↦ err LicenseError.license_not_found
      | some l ↦ ok (customer_dto db l)
    ]
