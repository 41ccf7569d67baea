-- ===== src/License/Outcome.antt =====
-- What a transaction of activateInternalLicense that returned has found and done.
use d_n_i_p.Prelude.{
  ℕ, ℤ, ◌≡◌, ◌⊎◌, ◌++◌, inl, inr, true, false, none, some, [], ◌∷◌, arith, find?, Bool-cases,
  Option-cases, leb_ℤ, pos,
}
use d_n_i_p.Tx.{ok}
use d_n_i_p.Entitlement.Model.{Entitlement, find_entitlement}
use d_n_i_p.License.Model.{License, Activation, Db, find_by_hash, active_at, active_count}
use d_n_i_p.License.Activation.{
  ActivateResponse, activated, seat_id, activation_audit, seat, positive_seats, take_seat,
  activate_tx, rights_hold,
}

-- A transaction that returned found an active row, and changed nothing, or took a free seat.
abbrev pub Kept : ℕ → ℕ → ℕ → Db → ActivateResponse → Db → Type 0
Kept domain hash now db r db' =
    (l : License) × (e : Entitlement) × (m : ℤ) × (a : Activation) × (find_by_hash hash db.licenses
      ≡ some l)
    × (find_entitlement l.entitlement_id db.entitlements ≡ some e)
    × (rights_hold l e now ≡ true)
    × (positive_seats e.max_activations ≡ some m)
    × (find? (active_at l.id domain) db.activations ≡ some a)
    × (r ≡ activated l e domain a.activated_at)
    × (db' ≡ db)

abbrev pub Seated : ℕ → ℕ → ℕ → ℕ → Db → ActivateResponse → Db → Type 0
Seated domain hash new_id now db r db' =
    (l : License) × (e : Entitlement) × (m : ℤ) × (find_by_hash hash db.licenses ≡ some l)
    × (find_entitlement l.entitlement_id db.entitlements ≡ some e)
    × (rights_hold l e now ≡ true)
    × (positive_seats e.max_activations ≡ some m)
    × (find? (active_at l.id domain) db.activations ≡ none)
    × (leb_ℤ m (pos (active_count l.id db.activations)) ≡ false)
    × (r ≡ activated l e domain now)
    × (db' ≡ record db {
      activations = seat l domain new_id now db.activations;
      audits = db.audits ++ activation_audit l domain (seat_id l domain new_id db.activations) ∷ [];
    })

pub activate_tx_inv :
    (domain hash new_id now : ℕ) (db : Db) (r : ActivateResponse) (db' : Db)
    → activate_tx domain hash new_id now db ≡ ok (r, db')
    → Kept domain hash now db r db' ⊎ Seated domain hash new_id now db r db'
unfolding activate_tx take_seat
activate_tx_inv domain hash new_id now db r db' h =
    elim (Option-cases (find_by_hash hash db.licenses)) [
      | inl e1 ↦ absurd (ground arith)
      | inr (l, e1) ↦ elim (Option-cases (find_entitlement l.entitlement_id db.entitlements)) [
        | inl e2 ↦ absurd (ground arith)
        | inr (e, e2) ↦ elim (Bool-cases (rights_hold l e now)) [
          | inr e3 ↦ absurd (ground arith)
          | inl e3 ↦ elim (Option-cases (positive_seats e.max_activations)) [
            | inl e4 ↦ absurd (ground arith)
            | inr (m, e4) ↦ elim (Option-cases (find? (active_at l.id domain) db.activations)) [
              | inr (a, e5) ↦ inl (l, e, m, a, e1, e2, e3, e4, e5, ground arith, ground arith)
              | inl e5 ↦ elim (Bool-cases (leb_ℤ m (pos (active_count l.id db.activations)))) [
                | inl e6 ↦ absurd (ground arith)
                | inr e6 ↦ inr (l, e, m, e1, e2, e3, e4, e5, e6, ground arith, ground arith)
              ]
            ]
          ]
        ]
      ]
    ]
