-- ===== src/License/RoundTrip.antt =====
-- What activation, validation and deactivation of the same key and domain do to one another.
use d_n_i_p.Prelude.{
  ℕ, ℤ, ◌++◌, [], ◌∷◌, ◌==◌, false, ◌≡◌, refl, sym, ap, subst, ◌∙◌, inl, inr, Bool, true, Option,
  none, some, List, arith, find?, count_where, update_where, Unique, Option-cases,
}
use d_n_i_p.Prelude.Rows.{
  count-find?-none, find?-updated, find?-append_none, find?-update_none, update_where-none,
}
use d_n_i_p.Tx.{Result, ok, err, transaction, transaction-eq-ok, transaction-of-ok}
use d_n_i_p.Entitlement.Model.{Entitlement, is_past, find_entitlement}
use d_n_i_p.License.Model.{
  License, Activation, Db, Env, LicenseError, active_at, at_domain, find_by_hash,
}
use d_n_i_p.License.Activation.{
  Params, ActivateResponse, valid, invalid, request_of, activated, activate_tx, activate, validated,
  validate, deactivated_row, release, deactivate, rights_hold, seat, reactivate, new_activation,
  positive_seats,
}
use d_n_i_p.License.Outcome.{activate_tx_inv}
use d_n_i_p.License.Capacity.{IsSeated, active_at-seat}

-- What holds of the database that an activation leaves: the active row is there.
abbrev Active : ℕ → ℕ → ℕ → Db → ActivateResponse → Db → Type 0
Active domain hash now db r db' =
    (l : License) × (e : Entitlement) × (m : ℤ) × (a : Activation) × (find_by_hash hash db'.licenses
      ≡ some l)
    × (find_entitlement l.entitlement_id db'.entitlements ≡ some e)
    × (rights_hold l e now ≡ true)
    × (positive_seats e.max_activations ≡ some m)
    × (find? (active_at l.id domain) db'.activations ≡ some a)
    × (r ≡ activated l e domain a.activated_at)
    × (r.domain ≡ domain)
    × (r.expires_at ≡ e.expires_at)
    × (r.updates_until ≡ e.updates_until)
    × (r.support_until ≡ e.support_until)

seat_is_active :
    (l : License) (domain new_id now : ℕ) (acts : List Activation)
    → Unique Activation.id acts
    → find? (active_at l.id domain) acts ≡ none
    → (a : Activation) × (find? (active_at l.id domain) (seat l domain new_id now acts) ≡ some a)
seat_is_active l domain new_id now acts ids free =
    elim (Option-cases (find? (active_at l.id domain) (seat l domain new_id now acts))) [
      | inr found ↦ found
      | inl lost ↦ absurd (
          ground (
            arith,
            active_at-seat l domain new_id now acts ids free l.id domain,
            count-find?-none (active_at l.id domain) (seat l domain new_id now acts) lost,
            count-find?-none (active_at l.id domain) acts free,
          ))
    ]

-- The active row that a seat has brought is as new as the seat.
seat-activated_at :
    (l : License) (domain new_id now : ℕ) (acts : List Activation) (a : Activation)
    → find? (active_at l.id domain) acts ≡ none
    → find? (active_at l.id domain) (seat l domain new_id now acts) ≡ some a
    → a.activated_at ≡ now
unfolding seat reactivate new_activation
seat-activated_at l domain new_id now acts a free h =
    elim (Option-cases (find? (at_domain l.id domain) acts)) [
      | inr (r, e) ↦
          let (y, made) =
            find?-updated (active_at l.id domain) (λ x. x.id == r.id) (reactivate now) acts {r = a}
              free (rw (seat, e) at h) in
          rw made refl
      | inl e ↦
          let there : find? (active_at l.id domain)
                (acts ++ new_activation l domain new_id now ∷ [])
              ≡ some a =
            rw (seat, e) at h in
          let last =
            sym (
              find?-append_none (active_at l.id domain) acts
                (new_activation l domain new_id now ∷ []) free)
            ∙ there in
          ground arith
    ]

returned-Active :
    (domain hash new_id now : ℕ) (db : Db) (r : ActivateResponse) (db' : Db)
    → IsSeated db
    → activate_tx domain hash new_id now db ≡ ok (r, db')
    → Active domain hash now db r db'
unfolding activated
returned-Active domain hash new_id now db r db' v h =
    elim (activate_tx_inv domain hash new_id now db r db' h) [
      | inl (l, e, m, a, e1, e2, e3, e4, e5, pr, same) ↦
          (l, e, m, a, rw same e1, rw same e2, e3, e4, rw same e5, pr, rw pr, rw pr, rw pr, rw pr)
      | inr (l, e, m, e1, e2, e3, e4, e5, e6, pr, made) ↦
          let (a, there) = seat_is_active l domain new_id now db.activations v.activation_ids e5 in
          (
            l,
            e,
            m,
            a,
            rw made e1,
            rw made e2,
            e3,
            e4,
            rw made there,
            pr
                ∙ ap (activated l e domain)
                    (sym (seat-activated_at l domain new_id now db.activations a e5 there)),
            rw pr,
            rw pr,
            rw pr,
            rw pr,
          )
    ]

rows_validated :
    (domain hash now : ℕ) (db : Db) (l : License) (e : Entitlement) (a : Activation)
    → find_by_hash hash db.licenses ≡ some l
    → find_entitlement l.entitlement_id db.entitlements ≡ some e
    → rights_hold l e now ≡ true
    → find? (active_at l.id domain) db.activations ≡ some a
    → validated domain hash now db ≡ some (l, e, a)
unfolding validated
rows_validated domain hash now db l e a e1 e2 e3 e4 = ground arith

activate-of :
    (env : Env) (p : Params) (new_id now : ℕ) (db : Db) (domain hash : ℕ)
    → request_of env p ≡ some (domain, hash)
    → activate env p new_id now db ≡ transaction (activate_tx domain hash new_id now) db
unfolding activate
activate-of env p new_id now db domain hash asked = rw (asked, activate) refl

module _ (env : Env) (p : Params) (new_id now : ℕ) (db : Db) (r : ActivateResponse)
    (v : IsSeated db) (returned : (activate env p new_id now db).0 ≡ ok r) where
  abbrev after_activate : Db
  after_activate = (activate env p new_id now db).1

  activate-Active :
      (domain hash : ℕ)
      → request_of env p ≡ some (domain, hash)
      → Active domain hash now db r after_activate
  activate-Active domain hash asked =
      let run = activate-of env p new_id now db domain hash asked in
      let back : (transaction (activate_tx domain hash new_id now) db).0 ≡ ok r =
        rw run at returned in
      let (db', e1, e2) = transaction-eq-ok (activate_tx domain hash new_id now) db r back in
      subst (λ d. Active domain hash now db r d)
        (sym (ap (λ (x : Result LicenseError ActivateResponse × Db). x.1) run ∙ e2))
        (returned-Active domain hash new_id now db r db' v e1)

  asked_of : (q : ℕ × ℕ) × (request_of env p ≡ some q)
  unfolding activate
  asked_of = elim (Option-cases (request_of env p)) [
    | inr found ↦ found
    | inl e ↦
        absurd (
          let f : err LicenseError.invalid_key_or_domain ≡ ok r = rw (e, activate) at returned in
          cc)
  ]

  -- A second activation of the same key and domain, at any time at which the rights have not
  -- ended, gives the same answer, the time of activation included, and leaves the database as the
  -- first one left it: it takes no second seat, moves no time, and writes no second audit row.
  pub activate_twice :
      (second_id later : ℕ)
      → is_past later r.expires_at ≡ false
      → activate env p second_id later after_activate ≡ (ok r, after_activate)
  unfolding activate_tx rights_hold
  activate_twice second_id later lasting =
      let ((domain, hash), asked) = asked_of in
      let (l, e, m, a, e1, e2, e3, e4, e5, q0, q1, q2, q3, q4) =
        activate-Active domain hash asked in
      let still : rights_hold l e later ≡ true = ground (arith, q2) in
      let again : activate_tx domain hash second_id later after_activate
          ≡ ok (activated l e domain a.activated_at, after_activate) =
        ground arith in
      activate-of env p second_id later after_activate domain hash asked
      ∙ transaction-of-ok (activate_tx domain hash second_id later) after_activate after_activate r
          (again ∙ ap (λ x. ok (x, after_activate)) (sym q0))

  -- What activateInternalLicense has returned, validateInternalLicense confirms at once, with the
  -- same domain and the same dates.
  pub validate-activate :
      (stamped : Bool)
      → (validate env p stamped now after_activate).0
        ≡ valid r.domain r.expires_at r.updates_until r.support_until
  unfolding validate
  validate-activate stamped =
      let ((domain, hash), asked) = asked_of in
      let (l, e, m, a, e1, e2, e3, e4, e5, q0, q1, q2, q3, q4) =
        activate-Active domain hash asked in
      let row : validated domain hash now after_activate ≡ some (l, e, a) =
        rows_validated domain hash now after_activate l e a e1 e2 e3 e5 in
      ground arith

released :
    (l : License) (domain : ℕ) (actor : Option ℕ) (now : ℕ) (db : Db)
    → (release l domain actor now db).activations
      ≡ update_where (active_at l.id domain) (deactivated_row now) db.activations
unfolding release
released l domain actor now db = ground arith

release_frees :
    (l : License) (domain : ℕ) (actor : Option ℕ) (now : ℕ) (db : Db)
    → find? (active_at l.id domain) (release l domain actor now db).activations ≡ none
unfolding deactivated_row
release_frees l domain actor now db = rw (released l domain actor now db) (
    find?-update_none (active_at l.id domain) (deactivated_row now) db.activations
      (λ x. ground arith))

release_licenses :
    (l : License) (domain : ℕ) (actor : Option ℕ) (now : ℕ) (db : Db)
    → (release l domain actor now db).licenses ≡ db.licenses
unfolding release
release_licenses l domain actor now db = ground arith

release_entitlements :
    (l : License) (domain : ℕ) (actor : Option ℕ) (now : ℕ) (db : Db)
    → (release l domain actor now db).entitlements ≡ db.entitlements
unfolding release
release_entitlements l domain actor now db = ground arith

no_release :
    (l : License) (domain : ℕ) (actor : Option ℕ) (now : ℕ) (db : Db)
    → count_where (active_at l.id domain) db.activations ≡ 0
    → release l domain actor now db ≡ db
unfolding release
no_release l domain actor now db free =
    ground
      (arith, update_where-none (active_at l.id domain) (deactivated_row now) db.activations free)

release_twice :
    (l : License) (domain : ℕ) (actor actor' : Option ℕ) (now later : ℕ) (db : Db)
    → release l domain actor' later (release l domain actor now db) ≡ release l domain actor now db
release_twice l domain actor actor' now later db =
    no_release l domain actor' later (release l domain actor now db) (
      count-find?-none (active_at l.id domain) (release l domain actor now db).activations
        (release_frees l domain actor now db))

module _ (env : Env) (p : Params) (now : ℕ) (db : Db) where
  abbrev after_deactivate : Db
  after_deactivate = (deactivate env p now db).1

  -- After deactivateInternalLicense, whatever it found, the same key and domain do not validate,
  -- at any time.
  pub validate-deactivate :
      (stamped : Bool) (later : ℕ) → (validate env p stamped later after_deactivate).0 ≡ invalid
  unfolding validate deactivate validated
  validate-deactivate stamped later = elim (Option-cases (request_of env p)) [
    | inl e ↦ ground arith
    | inr ((domain, hash), e) ↦ elim (Option-cases (find_by_hash hash db.licenses)) [
      | inl e2 ↦ ground arith
      | inr (l, e2) ↦ ground (
        arith,
        release_frees l domain (some l.user_id) now db,
        release_licenses l domain (some l.user_id) now db,
      )
    ]
  ]

  -- A second deactivation changes nothing, so the transition is audited once.
  pub deactivate_twice :
      (later : ℕ) → (deactivate env p later after_deactivate).1 ≡ after_deactivate
  unfolding deactivate
  deactivate_twice later = elim (Option-cases (request_of env p)) [
    | inl e ↦ ground arith
    | inr ((domain, hash), e) ↦ elim (Option-cases (find_by_hash hash db.licenses)) [
      | inl e2 ↦ ground arith
      | inr (l, e2) ↦ ground (
        arith,
        release_twice l domain (some l.user_id) (some l.user_id) now later db,
        release_licenses l domain (some l.user_id) now db,
      )
    ]
  ]
