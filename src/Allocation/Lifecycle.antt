-- ===== src/Allocation/Lifecycle.antt =====
-- The life of an allocation: the moves of its status that the engine makes, and what never changes.
use d_n_i_p.Prelude.{
  ℕ, ◌≡◌, refl, inl, inr, true, Option, none, some, [], ◌∷◌, ◌==◌, arith, Bool-cases, Option-cases,
}
use d_n_i_p.Prelude.Rows.{find?-sound, find?-update, find?-append_some}
use d_n_i_p.Text.{Text}
use d_n_i_p.Tx.{transaction_keeps}
use d_n_i_p.Allocation.Model.{
  Allocation, AllocationStatus, Account, Store, find_allocation, find_account, consumed,
  metadata_error, is_pending, is_running, is_deactivation_pending,
}
use d_n_i_p.Allocation.Requests.{
  RequestParams, request_tx, request_allocation, new_allocation, DeactivationParams, leave_pending,
  deactivation_tx, request_deactivation,
}
use d_n_i_p.Allocation.Review.{
  ActivateParams, start, activate_allocation_tx, activate_allocation, RejectParams, turn_down,
  reject_tx, reject_allocation, ConfirmParams, confirm, confirm_tx, confirm_deactivated,
  settle_account, set_account_status,
}
use d_n_i_p.Allocation.Outcome.{
  with_row, fill, activate_allocation_tx_inv, request_tx_inv, reject_tx_inv, deactivation_tx_inv,
  confirm_tx_inv,
}

pub data Moves : AllocationStatus → AllocationStatus → Type 0 where
  starts : Moves AllocationStatus.pending AllocationStatus.active
  turns_down : Moves AllocationStatus.pending AllocationStatus.rejected
  leaves : Moves AllocationStatus.active AllocationStatus.deactivation_pending
  ends : Moves AllocationStatus.deactivation_pending AllocationStatus.deactivated

-- The columns that say whose allocation it is, and of what.
abbrev pub SameRight : Allocation → Allocation → Type 0
SameRight a b =
    (b.id ≡ a.id)
    × (b.entitlement_id ≡ a.entitlement_id)
    × (b.provider_id ≡ a.provider_id)
    × (b.user_id ≡ a.user_id)
    × (b.normalized_domain ≡ a.normalized_domain)

-- The row after some calls: itself, or what a move has made of it.
pub data Leads (a : Allocation) : Allocation → Type 0 where
  same : Leads a a
  move : {b c : Allocation} → Leads a b → Moves b.status c.status → SameRight b c → Leads a c

abbrev pub Led : ℕ → Allocation → Store → Type 0
Led i a s = (b : Allocation) × (find_allocation i s.allocations ≡ some b) × Leads a b

-- The update of the row that a call has found leads each row on.
with_row-Led :
    (i j : ℕ) (f : Allocation → Allocation) (s : Store) (a r : Allocation)
    → find_allocation j s.allocations ≡ some r
    → ((x : Allocation) → (f x).id ≡ x.id)
    → Moves r.status (f r).status
    → SameRight r (f r)
    → find_allocation i s.allocations ≡ some a
    → Led i a (with_row r.id f s)
with_row-Led i j f s a r held keeps moves right found =
    let seen =
      find?-update (λ x. x.id == i) (λ x. x.id == r.id) f s.allocations
        (λ x _. rw (keeps x) refl) in
    elim (Bool-cases (a.id == r.id)) [
      | inl e ↦
          let one : a ≡ r = only e in
          (f r, ground arith, Leads.move {b = r} (rw one Leads.same) moves right)
      | inr e ↦ (a, ground arith, Leads.same)
    ]
  where
    only : (a.id == r.id) ≡ true → a ≡ r
    only e =
        let (hi, hj) : ((a.id == i) ≡ true) × ((r.id == j) ≡ true) = (
          find?-sound (λ x. x.id == i) s.allocations found,
          find?-sound (λ x. x.id == j) s.allocations held,
        ) in
        let same : i ≡ j = ground arith in
        let again : find_allocation j s.allocations ≡ some a = rw (← same) found in ground arith

pending_only : (st : AllocationStatus) → is_pending st ≡ true → st ≡ AllocationStatus.pending
pending_only st h = ground arith

pub running_only : (st : AllocationStatus) → is_running st ≡ true → st ≡ AllocationStatus.active
running_only st h = ground arith

waiting_only :
    (st : AllocationStatus)
    → is_deactivation_pending st ≡ true
    → st ≡ AllocationStatus.deactivation_pending
waiting_only st h = ground arith

pub settle_account_allocations :
    (o : Option ℕ) (s : Store) → (settle_account o s).allocations ≡ s.allocations
unfolding settle_account set_account_status
settle_account_allocations none s = refl
settle_account_allocations (some j) s = elim (Option-cases (find_account j s.accounts)) [
  | inl e ↦ ground arith
  | inr (acc, e) ↦ ground arith
]

pub fill_allocations :
    (acc : Account) (n : ℕ) (s : Store) → (fill acc n s).allocations ≡ s.allocations
unfolding set_account_status
fill_allocations acc n s = ground arith

module _ (s : Store) (i : ℕ) (a : Allocation)
    (found : find_allocation i s.allocations ≡ some a) where
  pub rejected-Led : (p : RejectParams) → Led i a (reject_allocation p s).1
  unfolding reject_allocation turn_down
  rejected-Led p = elim (Option-cases (metadata_error p.metadata)) [
    | inr (x, e) ↦ rw (e, reject_allocation) (a, found, Leads.same)
    | inl e ↦
        rw (e, reject_allocation)
          (transaction_keeps (Led i a) (reject_tx p) s (a, found, Leads.same)
            (λ r s' done.
              let (x, held, waiting, _, stored) = reject_tx_inv p s r s' done in
              rw stored (
                with_row-Led i p.allocation_id (turn_down p) s a x held (λ y. refl)
                  (rw (pending_only x.status waiting) Moves.turns_down)
                  (refl, refl, refl, refl, refl) found)))
  ]

  pub leaving-Led :
      (iso : ℕ → Text) (p : DeactivationParams) (now : ℕ)
      → Led i a (request_deactivation iso p now s).1
  unfolding request_deactivation leave_pending
  leaving-Led iso p now = elim (Option-cases (metadata_error p.metadata)) [
    | inr (x, e) ↦ rw (e, request_deactivation) (a, found, Leads.same)
    | inl e ↦
        rw (e, request_deactivation)
          (transaction_keeps (Led i a) (deactivation_tx iso p now) s (a, found, Leads.same)
            (λ r s' done.
              let (x, held, on, _, stored) = deactivation_tx_inv iso p now s r s' done in
              rw stored (
                with_row-Led i p.allocation_id (leave_pending iso p now) s a x held (λ y. refl)
                  (rw (running_only x.status on) Moves.leaves) (refl, refl, refl, refl, refl)
                  found)))
  ]

  pub confirmed-Led : (p : ConfirmParams) (now : ℕ) → Led i a (confirm_deactivated p now s).1
  unfolding confirm_deactivated confirm
  confirmed-Led p now = elim (Option-cases (metadata_error p.metadata)) [
    | inr (x, e) ↦ rw (e, confirm_deactivated) (a, found, Leads.same)
    | inl e ↦
        rw (e, confirm_deactivated)
          (transaction_keeps (Led i a) (confirm_tx p now) s (a, found, Leads.same)
            (λ r s' done.
              let (x, held, waiting, _, stored) = confirm_tx_inv p now s r s' done in
              rw
                (
                  stored,
                  settle_account_allocations x.provider_account_id
                      (with_row x.id (confirm p now) s),
                )
                (with_row-Led i p.allocation_id (confirm p now) s a x held (λ y. refl)
                  (rw (waiting_only x.status waiting) Moves.ends) (refl, refl, refl, refl, refl)
                  found)))
  ]

  pub started-Led : (p : ActivateParams) (now : ℕ) → Led i a (activate_allocation p now s).1
  unfolding activate_allocation start
  started-Led p now = elim (Option-cases (metadata_error p.metadata)) [
    | inr (x, e) ↦ rw (e, activate_allocation) (a, found, Leads.same)
    | inl e ↦
        rw (e, activate_allocation)
          (transaction_keeps (Led i a) (activate_allocation_tx p now) s (a, found, Leads.same)
            (λ r s' done.
              let (x, _, acc, held, waiting, _, _, _, _, _, _, _, stored) =
                activate_allocation_tx_inv p now s r s' done in
              rw
                (
                  stored,
                  fill_allocations acc (consumed acc.id s.allocations)
                      (with_row x.id (start p acc now) s),
                )
                (with_row-Led i p.allocation_id (start p acc now) s a x held (λ y. refl)
                  (rw (pending_only x.status waiting) Moves.starts) (refl, refl, refl, refl, refl)
                  found)))
  ]

  pub requested-Led :
      (normalize_domain : Text → Option ℕ) (p : RequestParams) (new_id now : ℕ)
      → Led i a (request_allocation normalize_domain p new_id now s).1
  unfolding request_allocation
  requested-Led normalize_domain p new_id now = elim (Option-cases (metadata_error p.metadata)) [
    | inr (x, e) ↦ rw (e, request_allocation) (a, found, Leads.same)
    | inl e ↦ elim (Option-cases (normalize_domain p.domain)) [
      | inl e2 ↦ rw (e, request_allocation, e2) (a, found, Leads.same)
      | inr (domain, e2) ↦
          rw (e, request_allocation, e2)
            (transaction_keeps (Led i a) (request_tx p domain new_id now) s (a, found, Leads.same)
              (λ r s' done.
                let (e, m, w, _, _, _, _, _, _, _, stored) =
                  request_tx_inv p domain new_id now s r s' done in
                rw stored (
                  a,
                  find?-append_some (λ x. x.id == i) s.allocations
                      (new_allocation p e.id domain w new_id ∷ []) found,
                  Leads.same,
                )))
    ]
  ]
