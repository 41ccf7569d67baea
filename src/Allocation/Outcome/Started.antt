-- ===== src/Allocation/Outcome/Started.antt =====
-- What an activation that returned has found and done.
use d_n_i_p.Prelude.{
  ℕ, pos, ◌≡◌, inl, inr, true, false, not, ◌&&◌, none, some, ◌==◌, arith, find?, Bool-cases,
  Option-cases, leb_ℤ,
}
use d_n_i_p.Tx.{ok}
use d_n_i_p.Entitlement.Model.{Entitlement, find_entitlement}
use d_n_i_p.Allocation.Model.{
  Allocation, Account, AllocationStatus, Event, Store, active_in, consumed, find_allocation,
  find_account, write_audit, is_pending,
}
use d_n_i_p.Allocation.Review.{
  ActivateParams, status_error, parent_error, account_error, start, start_tx, exhaust,
  activate_allocation_tx,
}
use d_n_i_p.Allocation.Outcome.Parts.{with_row, fill}

abbrev pub Started : ActivateParams → ℕ → Store → Allocation → Store → Type 0
Started p now s r s' =
    (a : Allocation) × (e : Entitlement) × (acc : Account) × (find_allocation p.allocation_id
        s.allocations
      ≡ some a)
    × (is_pending a.status ≡ true)
    × (find_entitlement a.entitlement_id s.entitlements ≡ some e)
    × (parent_error e now ≡ none)
    × (find_account p.provider_account_id s.accounts ≡ some acc)
    × (account_error acc a ≡ none)
    × (leb_ℤ acc.total_capacity (pos (consumed acc.id s.allocations)) ≡ false)
    × (find? (λ x. active_in a.provider_id a.normalized_domain x && not (x.id == a.id))
          s.allocations
        ≡ none)
    × (r ≡ start p acc now a)
    × (s'
        ≡ write_audit a.id (some p.actor_id)
            (Event.activated a.entitlement_id acc.id a.normalized_domain p.notes)
            (fill acc (consumed acc.id s.allocations) (with_row a.id (start p acc now) s)))

status_error-none : (st : AllocationStatus) → status_error st ≡ none → is_pending st ≡ true
status_error-none st h = ground arith

start_tx_inv :
    (p : ActivateParams) (a : Allocation) (acc : Account) (count now : ℕ) (s : Store)
    (r : Allocation) (s' : Store)
    → start_tx p a acc count now s ≡ ok (r, s')
    → (find?
          (λ x. active_in a.provider_id a.normalized_domain x && not (x.id == a.id))
          s.allocations
        ≡ none)
      × (r ≡ start p acc now a)
      × (s'
          ≡ write_audit a.id
              (some p.actor_id)
              (Event.activated a.entitlement_id acc.id a.normalized_domain p.notes)
              (fill acc count (with_row a.id (start p acc now) s)))
unfolding start_tx
start_tx_inv p a acc count now s r s' h =
    elim (Option-cases (
      find? (λ x. active_in a.provider_id a.normalized_domain x && not (x.id == a.id))
        s.allocations)) [
          | inr (x, e) ↦ absurd (ground arith)
          | inl e ↦ (e, ground arith, ground arith)
        ]

pub activate_allocation_tx_inv :
    (p : ActivateParams) (now : ℕ) (s : Store) (r : Allocation) (s' : Store)
    → activate_allocation_tx p now s ≡ ok (r, s')
    → Started p now s r s'
unfolding activate_allocation_tx exhaust
activate_allocation_tx_inv p now s r s' h =
    elim (Option-cases (find_allocation p.allocation_id s.allocations)) [
      | inl e1 ↦ absurd (ground arith)
      | inr (a, e1) ↦ elim (Option-cases (status_error a.status)) [
        | inr (x, e2) ↦ absurd (ground arith)
        | inl e2 ↦ elim (Option-cases (find_entitlement a.entitlement_id s.entitlements)) [
          | inl e3 ↦ absurd (ground arith)
          | inr (e, e3) ↦ elim (Option-cases (parent_error e now)) [
            | inr (x, e4) ↦ absurd (ground arith)
            | inl e4 ↦ elim (Option-cases (find_account p.provider_account_id s.accounts)) [
              | inl e5 ↦ absurd (ground arith)
              | inr (acc, e5) ↦ elim (Option-cases (account_error acc a)) [
                | inr (x, e6) ↦ absurd (ground arith)
                | inl e6 ↦
                    elim (Bool-cases
                      (leb_ℤ acc.total_capacity (pos (consumed acc.id s.allocations)))) [
                        | inl e7 ↦ absurd (ground arith)
                        | inr e7 ↦
                            let began : start_tx p a acc (consumed acc.id s.allocations) now s
                                ≡ ok (r, s') =
                              ground arith in
                            let (free, made, stored) =
                              start_tx_inv p a acc (consumed acc.id s.allocations) now s r s'
                                began in
                            (
                              a,
                              e,
                              acc,
                              e1,
                              status_error-none a.status e2,
                              e3,
                              e4,
                              e5,
                              e6,
                              e7,
                              free,
                              made,
                              stored,
                            )
                      ]
              ]
            ]
          ]
        ]
      ]
    ]
