-- ===== src/Allocation/Outcome/Requested.antt =====
-- What a request that returned has found and done.
use Prim.Native.String.{String}
use text.Mathlib.Text.{◌==◌ as str_eq}
use d_n_i_p.Prelude.{
  ℕ, ℤ, pos, ◌≡◌, inl, inr, false, none, some, List, [], ◌∷◌, ◌++◌, arith, find?, count_where,
  Bool-cases, Option-cases, leb_ℤ,
}
use d_n_i_p.Tx.{ok}
use d_n_i_p.Entitlement.Model.{Entitlement, find_entitlement}
use d_n_i_p.Allocation.Model.{
  Allocation, Provider, Event, Store, open_on, open_at, active_in, write_audit,
}
use d_n_i_p.Allocation.Requests.{
  RequestParams, entitlement_error, open_seats, room_for, request_tx, new_allocation,
  code_or_default,
}
use d_n_i_p.Allocation.Outcome.Parts.{Result-cases}

abbrev pub Requested : RequestParams → ℕ → ℕ → ℕ → Store → Allocation → Store → Type 0
Requested p domain new_id now s r s' =
    (e : Entitlement) × (m : ℤ) × (v : Provider) × (find_entitlement p.entitlement_id s.entitlements
      ≡ some e)
    × (entitlement_error e p.user_id now ≡ none)
    × (open_seats e.max_activations ≡ some m)
    × (leb_ℤ m (pos (count_where (open_on e.id) s.allocations)) ≡ false)
    × (find? (open_at e.id domain) s.allocations ≡ none)
    × (find? (active_in v.id domain) s.allocations ≡ none)
    × (r ≡ new_allocation p e.id domain v new_id)
    × (s'
        ≡ write_audit new_id (some p.user_id)
            (Event.requested e.id domain (code_or_default p.provider_code) v.id)
            (record s {
              allocations = s.allocations ++ new_allocation p e.id domain v new_id ∷ [];
            }))

room_for_inv :
    (eid domain : ℕ) (m : ℤ) (code : String) (vs : List Provider) (allocs : List Allocation)
    (v : Provider)
    → room_for eid domain m code vs allocs ≡ ok v
    → (leb_ℤ m (pos (count_where (open_on eid) allocs)) ≡ false)
      × (find? (open_at eid domain) allocs ≡ none)
      × (find? (active_in v.id domain) allocs ≡ none)
unfolding room_for
room_for_inv eid domain m code vs allocs v h =
    elim (Bool-cases (leb_ℤ m (pos (count_where (open_on eid) allocs)))) [
      | inl e1 ↦ absurd (ground arith)
      | inr e1 ↦ elim (Option-cases (find? (open_at eid domain) allocs)) [
        | inr (a, e2) ↦ absurd (ground arith)
        | inl e2 ↦ elim (Option-cases (find? (λ v. str_eq v.code code) vs)) [
          | inl e3 ↦ absurd (ground arith)
          | inr (w, e3) ↦ elim (Option-cases (find? (active_in w.id domain) allocs)) [
            | inr (x, e4) ↦ absurd (ground arith)
            | inl e4 ↦ elim (Bool-cases w.is_active) [
              | inr e5 ↦ absurd (ground arith)
              | inl e5 ↦ let same : w ≡ v = ground arith in (e1, e2, rw (← same) e4)
            ]
          ]
        ]
      ]
    ]

pub request_tx_inv :
    (p : RequestParams) (domain new_id now : ℕ) (s : Store) (r : Allocation) (s' : Store)
    → request_tx p domain new_id now s ≡ ok (r, s')
    → Requested p domain new_id now s r s'
unfolding request_tx
request_tx_inv p domain new_id now s r s' h =
    let code = code_or_default p.provider_code in
    elim (Option-cases (find_entitlement p.entitlement_id s.entitlements)) [
      | inl e1 ↦ absurd (ground arith)
      | inr (e, e1) ↦ elim (Option-cases (entitlement_error e p.user_id now)) [
        | inr (x, e2) ↦ absurd (ground arith)
        | inl e2 ↦ elim (Option-cases (open_seats e.max_activations)) [
          | inl e3 ↦ absurd (ground arith)
          | inr (m, e3) ↦
              elim (Result-cases (room_for e.id domain m code s.providers s.allocations)) [
                | inr (x, e4) ↦ absurd (ground arith)
                | inl (v, e4) ↦
                    let (room, free, unused) =
                      room_for_inv e.id domain m code s.providers s.allocations v e4 in
                    (e, m, v, e1, e2, e3, room, free, unused, ground arith, ground arith)
              ]
        ]
      ]
    ]
