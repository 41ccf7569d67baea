-- ===== src/License/Revocation.antt =====
-- A revoked licence is out of use for good.
use Prim.Native.String.{String}
use d_n_i_p.Prelude.{
  ℕ, suc, ◌≡◌, refl, inl, inr, Bool, false, Option, some, List, [], ◌∷◌, arith, find?, update_where,
  Bool-cases, Option-cases, if◌then◌else◌, ◌==◌, or_default, mem_id,
}
use d_n_i_p.Prelude.Rows.{find?-update, find?-append_some}
use d_n_i_p.Tx.{err, transaction_keeps, transaction, transaction-of-err}
use d_n_i_p.Entitlement.Model.{Entitlement, find_entitlement}
use d_n_i_p.License.Model.{
  Text, License, Db, Env, LicenseError, find_by_hash, find_license, license_is_active,
}
use d_n_i_p.License.Activation.{
  Params, invalid, request_of, activate_tx, activate, validated, validate, release, deactivate,
  rights_hold,
}
use d_n_i_p.License.Customer.{
  customer_deactivate, customer_deactivate_tx, customer_reveal, owned_by,
}
use d_n_i_p.License.Admin.{revoked_row, revoke_rows, admin_revoke, admin_revoke_tx, safe_reason}
use d_n_i_p.License.Worker.{
  KeyMaterial, provision_one, provision_all, provision, revoke_all, reconcile, has_license,
  candidates, ids_of, orphans,
}
use d_n_i_p.License.Outcome.{activate_tx_inv}
use d_n_i_p.License.Calls.{Call, step, Reach}

-- The licence with this key hash is revoked.
abbrev pub IsRevoked : ℕ → Db → Type 0
IsRevoked hash db =
    (l : License) × (find_by_hash hash db.licenses ≡ some l) × (license_is_active l.status ≡ false)

IsRevoked-update :
    (hash : ℕ) (q : License → Bool) (now : ℕ) (db db' : Db)
    → db'.licenses ≡ update_where q (revoked_row now) db.licenses
    → IsRevoked hash db
    → IsRevoked hash db'
unfolding revoked_row
IsRevoked-update hash q now db db' pl (l, e, r) = (
  if q l then revoked_row now l else l,
  rw pl (
      ground (
        arith,
        find?-update (λ x. x.key_hash == hash) q (revoked_row now) db.licenses (λ x _. refl),
      )),
  ground arith,
)

same_licenses :
    (hash : ℕ) (db db' : Db) → db'.licenses ≡ db.licenses → IsRevoked hash db → IsRevoked hash db'
same_licenses hash db db' pl (l, e, r) = (l, rw pl e, r)

module _ (worker_id now : ℕ) (keys : ℕ → KeyMaterial) (hash : ℕ) where
  provision_one-IsRevoked :
      (n : ℕ) (e : Entitlement) (db : Db)
      → IsRevoked hash db
      → IsRevoked hash (provision_one worker_id now e (keys n) db)
  unfolding provision_one
  provision_one-IsRevoked n e db (l, h, r) = elim (Bool-cases (has_license e.id db.licenses)) [
    | inl had ↦ rw (had, provision_one) (l, h, r)
    | inr none_yet ↦
        rw (none_yet, provision_one)
          (l, find?-append_some (λ x. x.key_hash == hash) db.licenses _ h, r)
  ]

  provision_all-IsRevoked :
      (n : ℕ) (es : List Entitlement) (db : Db)
      → IsRevoked hash db
      → IsRevoked hash (provision_all worker_id now keys n es db).1
  unfolding provision_all
  provision_all-IsRevoked n [] db v = v
  provision_all-IsRevoked n (e ∷ es) db v =
      provision_all-IsRevoked (suc n) es (provision_one worker_id now e (keys n) db)
        (provision_one-IsRevoked n e db v)

release_licenses_kept :
    (l : License) (domain : ℕ) (actor : Option ℕ) (now : ℕ) (db : Db)
    → (release l domain actor now db).licenses ≡ db.licenses
unfolding release
release_licenses_kept l domain actor now db = ground arith

-- Only a revocation, or the creation of a licence, changes the table of licences.
activate_licenses :
    (env : Env) (p : Params) (new_id now : ℕ) (db : Db)
    → (activate env p new_id now db).1.licenses ≡ db.licenses
unfolding activate
activate_licenses env p new_id now db = elim (Option-cases (request_of env p)) [
  | inl e ↦ rw (e, activate) refl
  | inr ((domain, hash), e) ↦
      rw (e, activate)
        (transaction_keeps (λ d. d.licenses ≡ db.licenses) (activate_tx domain hash new_id now) db
          refl
          (λ r db' done. elim (activate_tx_inv domain hash new_id now db r db' done) [
            | inl (l, e', m, a, _, _, _, _, _, _, same) ↦ rw same refl
            | inr (l, e', m, _, _, _, _, _, _, _, made) ↦ rw made refl
          ]))
]

deactivate_licenses :
    (env : Env) (p : Params) (now : ℕ) (db : Db)
    → (deactivate env p now db).1.licenses ≡ db.licenses
unfolding deactivate
deactivate_licenses env p now db = elim (Option-cases (request_of env p)) [
  | inl e ↦ ground arith
  | inr ((domain, hash), e) ↦ elim (Option-cases (find_by_hash hash db.licenses)) [
    | inl e2 ↦ ground arith
    | inr (l, e2) ↦ ground (arith, release_licenses_kept l domain (some l.user_id) now db)
  ]
]

customer_deactivate_licenses :
    (env : Env) (license_id user_id : ℕ) (raw : Text) (now : ℕ) (db : Db)
    → (customer_deactivate env license_id user_id raw now db).1.licenses ≡ db.licenses
unfolding customer_deactivate customer_deactivate_tx transaction
customer_deactivate_licenses env license_id user_id raw now db =
    elim (Option-cases (env.normalize_domain raw)) [
      | inl e ↦ ground arith
      | inr (domain, e) ↦ elim (Option-cases (find? (owned_by license_id user_id) db.licenses)) [
        | inl e2 ↦ ground arith
        | inr (l, e2) ↦ ground (arith, release_licenses_kept l domain (some user_id) now db)
      ]
    ]

admin_revoke_licenses :
    (license_id actor_id : ℕ) (reason : Option String) (now : ℕ) (db : Db) (hash : ℕ)
    → IsRevoked hash db
    → IsRevoked hash (admin_revoke license_id actor_id reason now db).1
unfolding admin_revoke admin_revoke_tx revoke_rows
admin_revoke_licenses license_id actor_id reason now db hash v =
    elim (Option-cases (safe_reason reason)) [
      | inl e ↦ rw (e, admin_revoke) v
      | inr (code, e) ↦
          rw (e, admin_revoke)
            (transaction_keeps (IsRevoked hash) (admin_revoke_tx license_id actor_id code now) db v
              (λ r db' done. elim (Option-cases (find_license license_id db.licenses)) [
                | inl e2 ↦ absurd (ground arith)
                | inr (l, e2) ↦ elim (Bool-cases (license_is_active l.status)) [
                  | inl e3 ↦
                      let same : db' ≡ revoke_rows l actor_id code now db = ground arith in
                      rw same (
                        IsRevoked-update hash (λ x. x.id == l.id) now db
                          (revoke_rows l actor_id code now db) refl v)
                  | inr e3 ↦ let same : db' ≡ db = ground arith in rw same v
                ]
              ]))
    ]

step-IsRevoked :
    (env : Env) (hash : ℕ) (c : Call) (db : Db) → IsRevoked hash db → IsRevoked hash (step env c db)
unfolding step validate deactivate customer_reveal provision reconcile revoke_all
step-IsRevoked env hash (Call.activates p new_id now) db v =
    same_licenses hash db (activate env p new_id now db).1 (activate_licenses env p new_id now db) v
step-IsRevoked env hash (Call.validates p stamped now) db v =
    same_licenses hash db (validate env p stamped now db).1 (ground arith) v
step-IsRevoked env hash (Call.deactivates p now) db v =
    same_licenses hash db (deactivate env p now db).1 (deactivate_licenses env p now db) v
step-IsRevoked env hash (Call.customer_deactivates lid uid raw now) db v =
    same_licenses hash db (customer_deactivate env lid uid raw now db).1
      (customer_deactivate_licenses env lid uid raw now db) v
step-IsRevoked env hash (Call.customer_reveals lid uid) db v =
    same_licenses hash db (customer_reveal env lid uid db).1 (ground arith) v
step-IsRevoked env hash (Call.admin_revokes lid actor reason now) db v =
    admin_revoke_licenses lid actor reason now db hash v
step-IsRevoked env hash (Call.provisions locked batch worker keys now) db v =
    provision_all-IsRevoked worker now keys hash 0 (candidates locked (or_default batch 100) now db)
      db v
step-IsRevoked env hash (Call.reconciles locked batch worker now) db v =
    IsRevoked-update hash (λ l. mem_id l.id (ids_of (orphans locked (or_default batch 100) now db)))
      now db (reconcile locked batch worker now db).1 refl v

Reach-IsRevoked :
    (env : Env) (hash : ℕ) (s t : Db) → IsRevoked hash s → Reach env s t → IsRevoked hash t
Reach-IsRevoked env hash s t v Reach.here = v
Reach-IsRevoked env hash s t v (Reach.next {t = m} c r f e) =
    rw (← e) (step-IsRevoked env hash c m (Reach-IsRevoked env hash s m v r))

refused :
    (env : Env) (p : Params) (domain hash new_id now : ℕ) (db : Db)
    → request_of env p ≡ some (domain, hash)
    → IsRevoked hash db
    → activate env p new_id now db ≡ (err LicenseError.invalid_key_or_domain, db)
unfolding activate activate_tx rights_hold
refused env p domain hash new_id now db asked (l, e, r) =
    rw (asked, activate)
      (transaction-of-err (activate_tx domain hash new_id now) db _
        (elim (Option-cases (find_entitlement l.entitlement_id db.entitlements)) [
          | inl e2 ↦ ground arith
          | inr (e', e2) ↦ ground arith
        ]))

-- Once the licence of a key is revoked, then after any further calls the key is neither valid on
-- any domain nor activated on one, and the refusal writes nothing.
pub Reach-refuses_revoked :
    (env : Env) (p : Params) (domain hash : ℕ) (s t : Db)
    → request_of env p ≡ some (domain, hash)
    → IsRevoked hash s
    → Reach env s t
    → (stamped : Bool) (new_id now : ℕ)
    → (validate env p stamped now t ≡ (invalid, t))
      × (activate env p new_id now t ≡ (err LicenseError.invalid_key_or_domain, t))
unfolding validate validated rights_hold
Reach-refuses_revoked env p domain hash s t asked v r stamped new_id now =
    let (l, e, out) = Reach-IsRevoked env hash s t v r in
    (
      elim (Option-cases (find_entitlement l.entitlement_id t.entitlements)) [
        | inl e2 ↦ ground arith
        | inr (e', e2) ↦ ground arith
      ],
      refused env p domain hash new_id now t asked (l, e, out),
    )
