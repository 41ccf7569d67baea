-- ===== src/License/Admin.antt =====
-- What an administrator may do with a licence: adminRevokeLicense, adminListLicenses and
-- adminGetLicense.
use Prim.Native.String.{String}
use text.Mathlib.Text.{◌==◌ as str_eq}
use d_n_i_p.Prelude.{
  ℕ, ℤ, Option, none, some, List, map, ◌==◌, update_where, order_desc, if◌then◌else◌,
}
use d_n_i_p.Tx.{Result, ok, err, Tx, ◌>>=◌, ◌>>◌, gets, modify, found, transaction}
use d_n_i_p.Entitlement.Model.{find_entitlement}
use d_n_i_p.License.Model.{
  Text, License, LicenseStatus, RevokeReason, Audit, Details, Db, LicenseError, find_license,
  on_license, active_count, log,
}
use d_n_i_p.License.Activation.{deactivated_row}

pub record AdminLicenseDto : Type 0 where
  pub id : ℕ
  pub entitlement_id : ℕ
  pub user_id : ℕ
  pub product_id : ℕ
  pub variant_id : ℕ
  pub status : LicenseStatus
  pub key_last4 : Text
  pub max_activations : Option ℤ
  pub active_activations : ℕ
  pub created_at : ℕ
  pub updated_at : ℕ
  pub revoked_at : Option ℕ

-- ALLOWED_ADMIN_REVOKE_REASONS
unfoldable pub allowed_reason : String → Option RevokeReason
allowed_reason s =
    if str_eq s "ADMINISTRATIVE"
    then some RevokeReason.administrative
    else if str_eq s "REFUND"
    then some RevokeReason.refund
    else if str_eq s "FRAUD"
    then some RevokeReason.fraud
    else if str_eq s "SUPPORT"
    then some RevokeReason.support
    else if str_eq s "SECURITY"
    then some RevokeReason.security
    else if str_eq s "OTHER"
    then some RevokeReason.other
    else none

-- The reason of a request: absent or empty is ADMINISTRATIVE, and `none` is the refusal. A text
-- that looks like a licence key is none of the six, and is refused in the same words.
unfoldable pub safe_reason : Option String → Option RevokeReason
safe_reason none = some RevokeReason.administrative
safe_reason (some s) = if str_eq s "" then some RevokeReason.administrative else allowed_reason s

unfoldable pub admin_dto : Db → ℕ → License → AdminLicenseDto
admin_dto db active l = record {
  id = l.id;
  entitlement_id = l.entitlement_id;
  user_id = l.user_id;
  product_id = l.product_id;
  variant_id = l.variant_id;
  status = l.status;
  key_last4 = l.key_last4;
  max_activations = elim (find_entitlement l.entitlement_id db.entitlements) [
    | none ↦ none
    | some e ↦ e.max_activations
  ];
  active_activations = active;
  created_at = l.created_at;
  updated_at = l.updated_at;
  revoked_at = l.revoked_at;
}

unfoldable pub revoked_row : ℕ → License → License
revoked_row now l = record l {
  status = LicenseStatus.revoked;
  revoked_at = some now;
  updated_at = now;
}

revocation_audit : License → ℕ → RevokeReason → Audit
revocation_audit l actor_id reason = record {
  entity_id = l.id;
  actor_id = some actor_id;
  details = Details.license_revoked l.id l.entitlement_id l.key_last4 reason;
}

-- The licence is revoked, its active rows are deactivated, and one audit row is written.
unfoldable pub revoke_rows : License → ℕ → RevokeReason → ℕ → Db → Db
unfolding revocation_audit
revoke_rows l actor_id reason now db = log (revocation_audit l actor_id reason) (record db {
  licenses = update_where (λ x. x.id == l.id) (revoked_row now) db.licenses;
  activations = update_where (on_license l.id) (deactivated_row now) db.activations;
})

unfoldable pub admin_revoke_tx : ℕ → ℕ → RevokeReason → ℕ → Tx Db LicenseError AdminLicenseDto
admin_revoke_tx license_id actor_id reason now = do
  row ← gets (λ db. find_license license_id db.licenses)
  l ← found row LicenseError.license_not_found
  elim l.status [
    | LicenseStatus.revoked ↦ gets (λ db. admin_dto db 0 l)
    | LicenseStatus.active ↦ do
      modify (revoke_rows l actor_id reason now)
      gets (λ db. admin_dto db 0 (revoked_row now l))
  ]

-- adminRevokeLicense
unfoldable pub admin_revoke :
    ℕ → ℕ → Option String → ℕ → Db → Result LicenseError AdminLicenseDto × Db
admin_revoke license_id actor_id reason_code now db = elim (safe_reason reason_code) [
  | none ↦ (err LicenseError.invalid_revoke_reason, db)
  | some reason ↦ transaction (admin_revoke_tx license_id actor_id reason now) db
]

-- adminListLicenses
unfoldable pub admin_list_licenses : Db → List AdminLicenseDto
admin_list_licenses db =
    map (λ l. admin_dto db (active_count l.id db.activations) l)
      (order_desc License.created_at db.licenses)

-- adminGetLicense
unfoldable pub admin_get_license : ℕ → Db → Result LicenseError AdminLicenseDto
admin_get_license license_id db = elim (find_license license_id db.licenses) [
  | none ↦ err LicenseError.license_not_found
  | some l ↦ ok (admin_dto db (active_count l.id db.activations) l)
]
