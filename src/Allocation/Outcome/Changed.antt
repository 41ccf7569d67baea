-- ===== src/Allocation/Outcome/Changed.antt =====
-- What a rejection, a request for a deactivation and its confirmation have found and done.
use d_n_i_p.Prelude.{
  ℕ, ◌≡◌, inl, inr, Bool, true, not, ◌&&◌, some, ◌==◌, arith, Bool-cases, Option-cases,
}
use d_n_i_p.Text.{Text}
use d_n_i_p.Tx.{ok}
use d_n_i_p.Allocation.Model.{
  Allocation, AllocationStatus, Event, Store, find_allocation, write_audit, is_running, is_pending,
  is_deactivation_pending,
}
use d_n_i_p.Allocation.Requests.{DeactivationParams, deactivation_tx, leave_pending}
use d_n_i_p.Allocation.Review.{
  RejectParams, ConfirmParams, turn_down, reject_tx, confirm, confirm_tx, settle_account,
}
use d_n_i_p.Allocation.Outcome.Parts.{with_row}

-- A change of one allocation, from a status that is checked.
abbrev pub Changed :
    ℕ
    → (AllocationStatus → Bool)
    → (Allocation → Allocation)
    → (Allocation → Store → Store)
    → Store
    → Allocation
    → Store
    → Type 0
Changed i held f after s r s' =
    (a : Allocation) × (find_allocation i s.allocations ≡ some a)
    × (held a.status ≡ true)
    × (r ≡ f a)
    × (s' ≡ after a (with_row a.id f s))

pub reject_tx_inv :
    (p : RejectParams) (s : Store) (r : Allocation) (s' : Store)
    → reject_tx p s ≡ ok (r, s')
    → Changed p.allocation_id is_pending
        (turn_down p)
        (λ a. write_audit a.id (some p.actor_id) (Event.rejected a.entitlement_id p.reason))
        s
        r
        s'
unfolding reject_tx
reject_tx_inv p s r s' h = elim (Option-cases (find_allocation p.allocation_id s.allocations)) [
  | inl e1 ↦ absurd (ground arith)
  | inr (a, e1) ↦ elim (Bool-cases (is_pending a.status)) [
    | inr e2 ↦ absurd (ground arith)
    | inl e2 ↦ (a, e1, e2, ground arith, ground arith)
  ]
]

pub deactivation_tx_inv :
    (iso : ℕ → Text) (p : DeactivationParams) (now : ℕ) (s : Store) (r : Allocation) (s' : Store)
    → deactivation_tx iso p now s ≡ ok (r, s')
    → Changed p.allocation_id is_running
        (leave_pending iso p now)
        (λ a.
          write_audit a.id
            (some p.actor_id)
            (Event.deactivation_requested a.entitlement_id a.normalized_domain p.reason))
        s
        r
        s'
unfolding deactivation_tx
deactivation_tx_inv iso p now s r s' h =
    elim (Option-cases (find_allocation p.allocation_id s.allocations)) [
      | inl e1 ↦ absurd (ground arith)
      | inr (a, e1) ↦ elim (Bool-cases (p.is_customer && not (a.user_id == p.actor_id))) [
        | inl e2 ↦ absurd (ground arith)
        | inr e2 ↦ elim (Bool-cases (is_running a.status)) [
          | inr e3 ↦ absurd (ground arith)
          | inl e3 ↦ (a, e1, e3, ground arith, ground arith)
        ]
      ]
    ]

pub confirm_tx_inv :
    (p : ConfirmParams) (now : ℕ) (s : Store) (r : Allocation) (s' : Store)
    → confirm_tx p now s ≡ ok (r, s')
    → Changed p.allocation_id is_deactivation_pending
        (confirm p now)
        (λ a t.
          write_audit a.id
            (some p.actor_id)
            (Event.deactivated a.entitlement_id a.provider_account_id a.normalized_domain p.notes)
            (settle_account a.provider_account_id t))
        s
        r
        s'
unfolding confirm_tx
confirm_tx_inv p now s r s' h =
    elim (Option-cases (find_allocation p.allocation_id s.allocations)) [
      | inl e1 ↦ absurd (ground arith)
      | inr (a, e1) ↦ elim (Bool-cases (is_deactivation_pending a.status)) [
        | inr e2 ↦ absurd (ground arith)
        | inl e2 ↦ (a, e1, e2, ground arith, ground arith)
      ]
    ]
