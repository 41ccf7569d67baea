-- ===== src/License/Capacity.antt =====
-- The seats of a licence: what the engine keeps true of the activations table.
use d_n_i_p.Prelude.{
  ℕ, ℤ, ◌+◌, ◌≤◌, ◌≡◌, refl, ◌≢◌, inl, inr, false, ◌&&◌, none, some, List, [], ◌∷◌, ◌==◌, arith,
  if◌then◌else◌, find?, count_where, All, Member, Unique, Bool-cases, Option-cases, leb_ℤ, pos,
}
use d_n_i_p.Prelude.Rows.{
  find?-sound, find?-Member, find?-none-Member, count-find?-none, count-append, count-update_one,
  Unique-update, Unique-append, Unique-same, All-of_Member, All-Member,
}
use d_n_i_p.Tx.{transaction_keeps}
use d_n_i_p.Entitlement.Model.{seats, Entitlement, find_entitlement}
use d_n_i_p.License.Model.{
  License, Activation, Db, Env, activation_is_active, on_license, at_domain, active_at,
  active_count,
}
use d_n_i_p.License.Outcome.{activate_tx_inv}
use d_n_i_p.License.Activation.{
  Params, seat, positive_seats, activate_tx, activate, request_of, reactivate, new_activation,
}

abbrev pub capacity : List Entitlement → License → ℕ
capacity es l = elim (find_entitlement l.entitlement_id es) [
  | none ↦ 0
  | some e ↦ seats e.max_activations
]

pub record IsSeated (db : Db) : Type 0 where
  pub license_ids : Unique License.id db.licenses
  pub activation_ids : Unique Activation.id db.activations
  pub within : All (λ l. active_count l.id db.activations ≤ capacity db.entitlements l) db.licenses
  pub one_per_domain : (lid domain : ℕ) → count_where (active_at lid domain) db.activations ≤ 1

-- The row that step 8 finds is not active, since step 6 found no active one.
found_row_is_free :
    (lid domain : ℕ) (acts : List Activation) (r : Activation)
    → find? (active_at lid domain) acts ≡ none
    → find? (at_domain lid domain) acts ≡ some r
    → activation_is_active r.status ≡ false
found_row_is_free lid domain acts r free h = ground (
  arith,
  find?-none-Member (active_at lid domain) acts r free (find?-Member (at_domain lid domain) acts h),
  find?-sound (at_domain lid domain) acts h,
)

module _ (l : License) (domain new_id now : ℕ) (acts : List Activation)
    (ids : Unique Activation.id acts) (free : find? (active_at l.id domain) acts ≡ none) where
  -- A new seat raises the count of its own licence by one, and no other count.
  active_count-seat :
      (lid : ℕ)
      → active_count lid (seat l domain new_id now acts)
        ≡ active_count lid acts + (if lid == l.id then 1 else 0)
  unfolding seat reactivate new_activation
  active_count-seat lid = elim (Option-cases (find? (at_domain l.id domain) acts)) [
    | inl e ↦
        rw (e, seat)
          (ground
            (arith, count-append (on_license lid) acts (new_activation l domain new_id now ∷ [])))
    | inr (r, e) ↦
        rw (e, seat)
          (ground (
            arith,
            count-update_one Activation.id (on_license lid) (at_domain l.id domain) (reactivate now)
                acts r ids e,
            find?-sound (at_domain l.id domain) acts e,
            found_row_is_free l.id domain acts r free e,
          ))
  ]

  -- Nor does a new seat give a domain a second active row.
  pub active_at-seat :
      (lid d : ℕ)
      → count_where (active_at lid d) (seat l domain new_id now acts)
        ≡ count_where (active_at lid d) acts + (if lid == l.id && d == domain then 1 else 0)
  unfolding seat reactivate new_activation
  active_at-seat lid d = elim (Option-cases (find? (at_domain l.id domain) acts)) [
    | inl e ↦
        rw (e, seat)
          (ground
            (arith, count-append (active_at lid d) acts (new_activation l domain new_id now ∷ [])))
    | inr (r, e) ↦
        rw (e, seat)
          (ground (
            arith,
            count-update_one Activation.id (active_at lid d) (at_domain l.id domain)
                (reactivate now) acts r ids e,
            find?-sound (at_domain l.id domain) acts e,
            found_row_is_free l.id domain acts r free e,
          ))
  ]

  one_per_domain-seat :
      ((lid d : ℕ) → count_where (active_at lid d) acts ≤ 1)
      → (lid d : ℕ) → count_where (active_at lid d) (seat l domain new_id now acts) ≤ 1
  one_per_domain-seat one lid d =
      ground
        (arith, active_at-seat lid d, one lid d, count-find?-none (active_at l.id domain) acts free)

  Unique-seat : All (λ a. a.id ≢ new_id) acts → Unique Activation.id (seat l domain new_id now acts)
  unfolding seat reactivate new_activation
  Unique-seat fresh = elim (Option-cases (find? (at_domain l.id domain) acts)) [
    | inl e ↦ rw (e, seat) (Unique-append Activation.id acts _ ids fresh)
    | inr (r, e) ↦
        rw (e, seat)
          (Unique-update Activation.id (λ a. a.id == r.id) (reactivate now) acts (λ x. refl) ids)
  ]

-- The entitlement's seats bound the count of every licence, also after step 8.
within-seat :
    (db : Db) (l : License) (e : Entitlement) (m : ℤ) (domain new_id now : ℕ)
    → IsSeated db
    → Member l db.licenses
    → find_entitlement l.entitlement_id db.entitlements ≡ some e
    → positive_seats e.max_activations ≡ some m
    → leb_ℤ m (pos (active_count l.id db.activations)) ≡ false
    → find? (active_at l.id domain) db.activations ≡ none
    → (l' : License) → Member l' db.licenses
    → active_count l'.id (seat l domain new_id now db.activations) ≤ capacity db.entitlements l'
unfolding positive_seats
within-seat db l e m domain new_id now v held parent seats_of room free l' held' =
    let old =
      All-Member (λ x. active_count x.id db.activations ≤ capacity db.entitlements x) db.licenses l'
        v.within held' in
    let step = active_count-seat l domain new_id now db.activations v.activation_ids free l'.id in
    elim (Bool-cases (l'.id == l.id)) [
      | inl same ↦
          let one : l' ≡ l =
            Unique-same License.id db.licenses l' l v.license_ids held' held (ground arith) in
          rw one (
            ground (
              arith,
              active_count-seat l domain new_id now db.activations v.activation_ids free l.id,
            ))
      | inr other ↦ ground arith
    ]

seat-IsSeated :
    (db db' : Db) (l : License) (e : Entitlement) (m : ℤ) (domain new_id now : ℕ)
    → IsSeated db
    → Member l db.licenses
    → find_entitlement l.entitlement_id db.entitlements ≡ some e
    → positive_seats e.max_activations ≡ some m
    → leb_ℤ m (pos (active_count l.id db.activations)) ≡ false
    → find? (active_at l.id domain) db.activations ≡ none
    → All (λ a. a.id ≢ new_id) db.activations
    → db'.entitlements ≡ db.entitlements
    → db'.licenses ≡ db.licenses
    → db'.activations ≡ seat l domain new_id now db.activations
    → IsSeated db'
seat-IsSeated db db' l e m domain new_id now v held parent seats_of room free fresh pe pl pa =
    let acts = db.activations in
    record {
      license_ids = rw pl v.license_ids;
      activation_ids = rw pa (Unique-seat l domain new_id now acts v.activation_ids free fresh);
      within =
          rw (pe, pl, pa)
            (All-of_Member _ db.licenses
              (within-seat db l e m domain new_id now v held parent seats_of room free));
      one_per_domain =
          rw pa
            (one_per_domain-seat l domain new_id now acts v.activation_ids free v.one_per_domain);
    }

-- A call of activateInternalLicense keeps every licence within the seats of its entitlement, and
-- every domain of a licence at one active row, whether it returns or throws.
pub activate-IsSeated :
    (env : Env) (p : Params) (new_id now : ℕ) (db : Db)
    → IsSeated db
    → All (λ a. a.id ≢ new_id) db.activations
    → IsSeated (activate env p new_id now db).1
unfolding activate
activate-IsSeated env p new_id now db v fresh = elim (Option-cases (request_of env p)) [
  | inl none_of ↦ rw (none_of, activate) v
  | inr ((domain, hash), some_of) ↦
      rw (some_of, activate)
        (transaction_keeps IsSeated (activate_tx domain hash new_id now) db v (λ r db' returned.
          elim (activate_tx_inv domain hash new_id now db r db' returned) [
            | inl (l, e, m, a, _, _, _, _, _, _, same) ↦ rw same v
            | inr (l, e, m, e1, e2, e3, e4, e5, e6, _, made) ↦
                seat-IsSeated db db' l e m domain new_id now v
                  (find?-Member (λ x. x.key_hash == hash) db.licenses e1) e2 e4 e6 e5 fresh
                  (rw made) (rw made) (rw made)
          ]))
]
