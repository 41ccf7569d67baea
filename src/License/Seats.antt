-- ===== src/License/Seats.antt =====
-- The other writers of the licence tables keep every licence within its seats too.
use Prim.Native.String.{String}
use d_n_i_p.Prelude.{
  ℕ, ◌≡◌, refl, inl, inr, Bool, true, ◌&&◌, Option, some, ◌==◌, arith, find?, update_where,
  Bool-cases, Option-cases, mem_id, or_default,
}
use d_n_i_p.Prelude.Rows.{count-update_le, Unique-update, All-map_pred, All-update}
use d_n_i_p.Tx.{transaction_keeps}
use d_n_i_p.License.Model.{
  Text, License, Activation, RevokeReason, license_is_active, Db, Env, on_license, active_at,
  activation_is_active,
}
use d_n_i_p.License.Activation.{
  deactivated_row, release, deactivate, Params, request_of, stamp, validate, validated,
}
use d_n_i_p.License.Customer.{
  customer_deactivate, customer_deactivate_tx, customer_reveal, owned_by,
}
use d_n_i_p.License.Admin.{revoked_row, revoke_rows, admin_revoke, admin_revoke_tx, safe_reason}
use d_n_i_p.License.Worker.{revoke_all, reconcile, ids_of, orphans}
use d_n_i_p.License.Capacity.{IsSeated}

-- An update of activations that makes no row active, and moves none, takes no seat.
fewer_seats :
    (db db' : Db) (p : Activation → Bool) (f : Activation → Activation)
    → IsSeated db
    → ((x : Activation) → (f x).id ≡ x.id)
    → ((x : Activation) (lid : ℕ) → on_license lid (f x) ≡ true → on_license lid x ≡ true)
    → ((x : Activation) (lid d : ℕ) → active_at lid d (f x) ≡ true → active_at lid d x ≡ true)
    → db'.entitlements ≡ db.entitlements
    → db'.licenses ≡ db.licenses
    → db'.activations ≡ update_where p f db.activations
    → IsSeated db'
fewer_seats db db' p f v same_id seats domains pe pl pa =
    let acts = db.activations in
    record {
      license_ids = rw pl v.license_ids;
      activation_ids = rw pa (Unique-update Activation.id p f acts same_id v.activation_ids);
      within =
          rw (pe, pl, pa)
            (All-map_pred _ _ db.licenses
              (λ l h.
                omega (arith, count-update_le (on_license l.id) p f acts (λ x _. seats x l.id)))
              v.within);
      one_per_domain = rw pa (λ lid d. omega (
        arith,
        count-update_le (active_at lid d) p f acts (λ x _. domains x lid d),
        v.one_per_domain lid d,
      ));
    }

deactivated_seats :
    (db db' : Db) (p : Activation → Bool) (now : ℕ)
    → IsSeated db
    → db'.entitlements ≡ db.entitlements
    → db'.licenses ≡ db.licenses
    → db'.activations ≡ update_where p (deactivated_row now) db.activations
    → IsSeated db'
unfolding deactivated_row
deactivated_seats db db' p now v =
    fewer_seats db db' p (deactivated_row now) v (λ x. refl) (λ x lid e. ground arith)
      (λ x lid d e. ground arith)

pub release-IsSeated :
    (l : License) (domain : ℕ) (actor : Option ℕ) (now : ℕ) (db : Db)
    → IsSeated db
    → IsSeated (release l domain actor now db)
unfolding release
release-IsSeated l domain actor now db v =
    deactivated_seats db (release l domain actor now db) (active_at l.id domain) now v
      (ground arith) (ground arith) (ground arith)

-- A revocation changes neither the id nor the parent of a licence.
revoked_seats :
    (db db' : Db) (q : License → Bool) (now : ℕ)
    → IsSeated db
    → db'.entitlements ≡ db.entitlements
    → db'.licenses ≡ update_where q (revoked_row now) db.licenses
    → db'.activations ≡ db.activations
    → IsSeated db'
unfolding revoked_row
revoked_seats db db' q now v pe pl pa = record {
  license_ids =
      rw pl (Unique-update License.id q (revoked_row now) db.licenses (λ x. refl) v.license_ids);
  activation_ids = rw pa v.activation_ids;
  within = rw (pe, pl, pa) (All-update _ q (revoked_row now) db.licenses (λ x _ h. h) v.within);
  one_per_domain = rw pa v.one_per_domain;
}

revoke_both :
    (db db' : Db) (q : License → Bool) (p : Activation → Bool) (now : ℕ)
    → IsSeated db
    → db'.entitlements ≡ db.entitlements
    → db'.licenses ≡ update_where q (revoked_row now) db.licenses
    → db'.activations ≡ update_where p (deactivated_row now) db.activations
    → IsSeated db'
revoke_both db db' q p now v pe pl pa =
    let mid : Db = record db {
      activations = update_where p (deactivated_row now) db.activations;
    } in
    revoked_seats mid db' q now (deactivated_seats db mid p now v refl refl refl) pe pl pa

pub deactivate-IsSeated :
    (env : Env) (p : Params) (now : ℕ) (db : Db)
    → IsSeated db
    → IsSeated (deactivate env p now db).1
unfolding deactivate
deactivate-IsSeated env p now db v = elim (Option-cases (request_of env p)) [
  | inl e ↦ rw (e, deactivate) v
  | inr ((domain, hash), e) ↦ elim (Option-cases (find? (λ l. l.key_hash == hash) db.licenses)) [
    | inl e2 ↦ rw (e, deactivate, e2) v
    | inr (l, e2) ↦ rw (e, deactivate, e2) (release-IsSeated l domain (some l.user_id) now db v)
  ]
]

pub validate-IsSeated :
    (env : Env) (p : Params) (stamped : Bool) (now : ℕ) (db : Db)
    → IsSeated db
    → IsSeated (validate env p stamped now db).1
unfolding validate stamp
validate-IsSeated env p stamped now db v = elim (Option-cases (request_of env p)) [
  | inl e ↦ rw (e, validate) v
  | inr ((domain, hash), e) ↦ elim (Option-cases (validated domain hash now db)) [
    | inl e2 ↦ rw (e, validate, e2) v
    | inr ((l, e', a), e2) ↦ elim (Bool-cases stamped) [
      | inr e3 ↦ rw (e, validate, e2, e3) v
      | inl e3 ↦
          rw (e, validate, e2, e3)
            (fewer_seats db _ (λ b. b.id == a.id) (stamp now) v (λ x. refl) (λ x lid k. k)
              (λ x lid d k. k) refl refl refl)
    ]
  ]
]

revoke_rows-IsSeated :
    (l : License) (actor_id : ℕ) (code : RevokeReason) (now : ℕ) (db : Db)
    → IsSeated db
    → IsSeated (revoke_rows l actor_id code now db)
unfolding revoke_rows
revoke_rows-IsSeated l actor_id code now db v =
    revoke_both db (revoke_rows l actor_id code now db) (λ x. x.id == l.id) (on_license l.id) now v
      refl refl refl

pub admin_revoke-IsSeated :
    (license_id actor_id : ℕ) (reason : Option String) (now : ℕ) (db : Db)
    → IsSeated db
    → IsSeated (admin_revoke license_id actor_id reason now db).1
unfolding admin_revoke admin_revoke_tx
admin_revoke-IsSeated license_id actor_id reason now db v =
    elim (Option-cases (safe_reason reason)) [
      | inl e ↦ rw (e, admin_revoke) v
      | inr (code, e) ↦
          rw (e, admin_revoke)
            (transaction_keeps IsSeated (admin_revoke_tx license_id actor_id code now) db v
              (λ r db' done. elim (Option-cases (find? (λ l. l.id == license_id) db.licenses)) [
                | inl e2 ↦ absurd (ground arith)
                | inr (l, e2) ↦ elim (Bool-cases (license_is_active l.status)) [
                  | inl e3 ↦
                      let same : db' ≡ revoke_rows l actor_id code now db = ground arith in
                      rw same (revoke_rows-IsSeated l actor_id code now db v)
                  | inr e3 ↦ let same : db' ≡ db = ground arith in rw same v
                ]
              ]))
    ]

pub customer_deactivate-IsSeated :
    (env : Env) (license_id user_id : ℕ) (raw : Text) (now : ℕ) (db : Db)
    → IsSeated db
    → IsSeated (customer_deactivate env license_id user_id raw now db).1
unfolding customer_deactivate customer_deactivate_tx
customer_deactivate-IsSeated env license_id user_id raw now db v =
    elim (Option-cases (env.normalize_domain raw)) [
      | inl e ↦ rw (e, customer_deactivate) v
      | inr (domain, e) ↦
          rw (e, customer_deactivate)
            (transaction_keeps IsSeated (customer_deactivate_tx license_id user_id domain now) db v
              (λ r db' done. elim (Option-cases (find? (owned_by license_id user_id) db.licenses)) [
                | inl e2 ↦ absurd (ground arith)
                | inr (l, e2) ↦ elim (Bool-cases (license_is_active l.status)) [
                  | inr e3 ↦ absurd (ground arith)
                  | inl e3 ↦
                      let same : db' ≡ release l domain (some user_id) now db = ground arith in
                      rw same (release-IsSeated l domain (some user_id) now db v)
                ]
              ]))
    ]

pub customer_reveal-IsSeated :
    (env : Env) (license_id user_id : ℕ) (db : Db)
    → IsSeated db
    → IsSeated (customer_reveal env license_id user_id db).1
unfolding customer_reveal
customer_reveal-IsSeated env license_id user_id db v =
    elim (Option-cases (find? (owned_by license_id user_id) db.licenses)) [
      | inl e ↦ rw (e, customer_reveal) v
      | inr (l, e) ↦
          elim (Option-cases (env.decrypt_license_key l.key_ciphertext l.key_iv l.key_auth_tag)) [
            | inl e2 ↦ rw (e, customer_reveal, e2) v
            | inr (key, e2) ↦
                rw (e, customer_reveal, e2)
                  (record {
                    license_ids = v.license_ids;
                    activation_ids = v.activation_ids;
                    within = v.within;
                    one_per_domain = v.one_per_domain;
                  })
          ]
    ]

pub reconcile-IsSeated :
    (locked : ℕ → Bool) (batch_size : Option ℕ) (worker_id now : ℕ) (db : Db)
    → IsSeated db
    → IsSeated (reconcile locked batch_size worker_id now db).1
unfolding reconcile revoke_all
reconcile-IsSeated locked batch_size worker_id now db v =
    let rows = orphans locked (or_default batch_size 100) now db in
    revoke_both db (revoke_all rows worker_id now db) (λ l. mem_id l.id (ids_of rows))
      (λ a. mem_id a.license_id (ids_of rows) && activation_is_active a.status) now v refl refl refl
