-- ===== src/License/Worker.antt =====
-- The worker's sweeps: provisionInternalLicenses and reconcileInternalLicenses. `locked` says which
-- rows another transaction holds: SKIP LOCKED passes those over.
use d_n_i_p.Prelude.{
  ℕ, suc, Bool, true, false, not, ◌&&◌, ◌||◌, Option, none, some, List, [], ◌∷◌, ◌++◌, map, ◌==◌,
  any, filter_where, update_where, take, mem_id, or_default, if◌then◌else◌,
}
use d_n_i_p.Entitlement.Model.{
  Entitlement, EntitlementStatus, is_active, is_internal_license, is_past, find_entitlement,
}
use d_n_i_p.License.Model.{
  Text, License, LicenseStatus, Audit, Details, Db, license_is_active, activation_is_active, log,
}
use d_n_i_p.License.Activation.{deactivated_row}
use d_n_i_p.License.Admin.{revoked_row}

-- What one round of the loop draws: the row's id, and a new key hashed, encrypted and cut short.
pub record KeyMaterial : Type 0 where
  pub license_id : ℕ
  pub key_hash : ℕ
  pub key_ciphertext : Text
  pub key_iv : Text
  pub key_auth_tag : Text
  pub key_last4 : Text

abbrev pub has_license : ℕ → List License → Bool
has_license eid = any (λ l. l.entitlement_id == eid)

unfoldable pub is_candidate : (ℕ → Bool) → ℕ → List License → Entitlement → Bool
is_candidate locked now ls e =
    is_internal_license e.fulfillment_type
    && is_active e.status
    && not (is_past now e.expires_at)
    && not (has_license e.id ls)
    && not (locked e.id)

unfoldable pub candidates : (ℕ → Bool) → ℕ → ℕ → Db → List Entitlement
candidates locked batch now db =
    take batch (filter_where (is_candidate locked now db.licenses) db.entitlements)

unfoldable pub new_license : Entitlement → KeyMaterial → ℕ → License
new_license e k now = record {
  id = k.license_id;
  entitlement_id = e.id;
  user_id = e.user_id;
  product_id = e.product_id;
  variant_id = e.variant_id;
  status = LicenseStatus.active;
  key_hash = k.key_hash;
  key_ciphertext = k.key_ciphertext;
  key_iv = k.key_iv;
  key_auth_tag = k.key_auth_tag;
  key_last4 = k.key_last4;
  created_at = now;
  updated_at = now;
  revoked_at = none;
}

creation_audit : Entitlement → KeyMaterial → ℕ → Audit
creation_audit e k worker_id = record {
  entity_id = k.license_id;
  actor_id = none;
  details = Details.license_created e.id e.user_id e.product_id e.variant_id k.key_last4 worker_id;
}

-- INSERT … ON CONFLICT ("entitlement_id") DO NOTHING, and the audit row of what was inserted.
unfoldable pub provision_one : ℕ → ℕ → Entitlement → KeyMaterial → Db → Db
unfolding creation_audit
provision_one worker_id now e k db =
    if has_license e.id db.licenses
    then db
    else log (creation_audit e k worker_id)
        (record db { licenses = db.licenses ++ new_license e k now ∷ [] })

-- The loop, with the ids of the rows that it created; round n draws `keys n`.
unfoldable pub provision_all : ℕ → ℕ → (ℕ → KeyMaterial) → ℕ → List Entitlement → Db → List ℕ × Db
provision_all worker_id now keys n [] db = ([], db)
provision_all worker_id now keys n (e ∷ es) db =
    let (ids, db') =
      provision_all worker_id now keys (suc n) es (provision_one worker_id now e (keys n) db) in
    (if has_license e.id db.licenses then ids else (keys n).license_id ∷ ids, db')

-- provisionInternalLicenses
unfoldable pub provision : (ℕ → Bool) → Option ℕ → ℕ → (ℕ → KeyMaterial) → ℕ → Db → List ℕ × Db
provision locked batch_size worker_id keys now db =
    provision_all worker_id now keys 0 (candidates locked (or_default batch_size 100) now db) db

-- `e.status IN ('REVOKED', 'EXPIRED')`
abbrev pub is_terminal : EntitlementStatus → Bool
is_terminal EntitlementStatus.active = false
is_terminal _ = true

unfoldable pub is_orphan : (ℕ → Bool) → ℕ → List Entitlement → License → Bool
is_orphan locked now es l =
    license_is_active l.status
    && not (locked l.id)
    && (elim (find_entitlement l.entitlement_id es) [
      | none ↦ false
      | some e ↦ is_terminal e.status || is_past now e.expires_at
    ])

unfoldable pub orphans : (ℕ → Bool) → ℕ → ℕ → Db → List License
orphans locked batch now db =
    take batch (filter_where (is_orphan locked now db.entitlements) db.licenses)

-- The row comes from a join, so it has a parent.
unfoldable pub reconciliation_audit : List Entitlement → ℕ → License → Audit
reconciliation_audit es worker_id l = record {
  entity_id = l.id;
  actor_id = none;
  details =
      Details.license_reconciled l.entitlement_id
        (elim (find_entitlement l.entitlement_id es) [
          | none ↦ EntitlementStatus.revoked
          | some e ↦ e.status
        ])
        l.key_last4 worker_id;
}

abbrev pub ids_of : List License → List ℕ
ids_of = map (λ l. l.id)

unfoldable pub revoke_all : List License → ℕ → ℕ → Db → Db
revoke_all rows worker_id now db = record db {
  licenses = update_where (λ l. mem_id l.id (ids_of rows)) (revoked_row now) db.licenses;
  activations =
      update_where (λ a. mem_id a.license_id (ids_of rows) && activation_is_active a.status)
        (deactivated_row now) db.activations;
  audits = db.audits ++ map (reconciliation_audit db.entitlements worker_id) rows;
}

-- reconcileInternalLicenses: the ids that it answers with, and the database after it.
unfoldable pub reconcile : (ℕ → Bool) → Option ℕ → ℕ → ℕ → Db → List ℕ × Db
reconcile locked batch_size worker_id now db =
    let rows = orphans locked (or_default batch_size 100) now db in
    (ids_of rows, revoke_all rows worker_id now db)
