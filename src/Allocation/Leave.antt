-- ===== src/Allocation/Leave.antt =====
-- The steps that take an allocation out of use keep the seats: rejection, the request for a
-- deactivation, its confirmation, and the worker's sweep.
use d_n_i_p.Prelude.{
  ℕ, ◌≡◌, refl, inl, inr, Bool, true, Option, none, some, ◌==◌, arith, update_where, Option-cases,
  mem_id, or_default, Member, count_where, ◌≤◌,
}
use d_n_i_p.Prelude.Rows.{Unique-update, All-map_pred, All-of_Member}
use d_n_i_p.Prelude.Batches.{batch_sound, count-update_All}
use d_n_i_p.Text.{Text}
use d_n_i_p.Tx.{transaction_keeps}
use d_n_i_p.Allocation.Model.{
  Allocation, Event, Store, find_allocation, find_account, consumed, metadata_error, is_running,
  on_account, open_on, open_at, active_in,
}
use d_n_i_p.Allocation.Requests.{
  DeactivationParams, leave_pending, deactivation_tx, request_deactivation,
}
use d_n_i_p.Allocation.Review.{
  RejectParams, turn_down, reject_tx, reject_allocation, ConfirmParams, confirm, confirm_tx,
  confirm_deactivated, settle_account, next_status,
}
use d_n_i_p.Allocation.Reconcile.{
  reconcile_allocations, is_stranded, require_all, require_deactivation, stranded, allocation_ids,
}
use d_n_i_p.Allocation.Outcome.{with_row, reject_tx_inv, deactivation_tx_inv, confirm_tx_inv}
use d_n_i_p.Allocation.Seats.{
  IsWithin, write_audit-IsWithin, set_account_status-IsWithin, leave-IsWithin,
}

pub reject_allocation-IsWithin :
    (p : RejectParams) (s : Store) → IsWithin s → IsWithin (reject_allocation p s).1
unfolding reject_allocation turn_down
reject_allocation-IsWithin p s v = elim (Option-cases (metadata_error p.metadata)) [
  | inr (x, e) ↦ rw (e, reject_allocation) v
  | inl e ↦
      rw (e, reject_allocation)
        (transaction_keeps IsWithin (reject_tx p) s v (λ r s' done.
          let (a, held, pending, _, stored) = reject_tx_inv p s r s' done in
          rw stored (
            write_audit-IsWithin a.id (some p.actor_id) (Event.rejected a.entitlement_id p.reason)
              (with_row a.id (turn_down p) s)
              (leave-IsWithin s (λ x. x.id == p.allocation_id) a (turn_down p) held (λ x. refl) v
                (λ i k. ground arith) (λ i k. ground arith) (λ i d k. ground arith)
                (λ i d k. ground arith)))))
]

pub request_deactivation-IsWithin :
    (iso : ℕ → Text) (p : DeactivationParams) (now : ℕ) (s : Store)
    → IsWithin s
    → IsWithin (request_deactivation iso p now s).1
unfolding request_deactivation leave_pending
request_deactivation-IsWithin iso p now s v = elim (Option-cases (metadata_error p.metadata)) [
  | inr (x, e) ↦ rw (e, request_deactivation) v
  | inl e ↦
      rw (e, request_deactivation)
        (transaction_keeps IsWithin (deactivation_tx iso p now) s v (λ r s' done.
          let (a, held, running, _, stored) = deactivation_tx_inv iso p now s r s' done in
          rw stored (
            write_audit-IsWithin a.id (some p.actor_id)
              (Event.deactivation_requested a.entitlement_id a.normalized_domain p.reason)
              (with_row a.id (leave_pending iso p now) s)
              (leave-IsWithin s (λ x. x.id == p.allocation_id) a (leave_pending iso p now) held
                (λ x. refl) v (λ i k. ground arith) (λ i k. ground arith) (λ i d k. ground arith)
                (λ i d k. ground arith)))))
]

settle_account-IsWithin : (o : Option ℕ) (s : Store) → IsWithin s → IsWithin (settle_account o s)
unfolding settle_account
settle_account-IsWithin none s v = v
settle_account-IsWithin (some i) s v = elim (Option-cases (find_account i s.accounts)) [
  | inl e ↦ rw (e, settle_account) v
  | inr (acc, e) ↦
      rw (e, settle_account)
        (set_account_status-IsWithin acc.id
          (next_status acc.status acc.total_capacity (consumed acc.id s.allocations)) s v)
]

pub with_row-confirm-IsWithin :
    (p : ConfirmParams) (now : ℕ) (s : Store) (v : IsWithin s) (a : Allocation)
    → find_allocation p.allocation_id s.allocations ≡ some a
    → IsWithin (with_row a.id (confirm p now) s)
unfolding confirm
with_row-confirm-IsWithin p now s v a held =
    leave-IsWithin s (λ x. x.id == p.allocation_id) a (confirm p now) held (λ x. refl) v
      (λ i k. ground arith) (λ i k. ground arith) (λ i d k. ground arith) (λ i d k. ground arith)

pub confirm_deactivated-IsWithin :
    (p : ConfirmParams) (now : ℕ) (s : Store)
    → IsWithin s
    → IsWithin (confirm_deactivated p now s).1
unfolding confirm_deactivated
confirm_deactivated-IsWithin p now s v = elim (Option-cases (metadata_error p.metadata)) [
  | inr (x, e) ↦ rw (e, confirm_deactivated) v
  | inl e ↦
      rw (e, confirm_deactivated)
        (transaction_keeps IsWithin (confirm_tx p now) s v (λ r s' done.
          let (a, held, waiting, _, stored) = confirm_tx_inv p now s r s' done in
          rw stored (
            write_audit-IsWithin a.id (some p.actor_id)
              (Event.deactivated a.entitlement_id a.provider_account_id a.normalized_domain p.notes)
              (settle_account a.provider_account_id (with_row a.id (confirm p now) s))
              (settle_account-IsWithin a.provider_account_id (with_row a.id (confirm p now) s)
                (with_row-confirm-IsWithin p now s v a held)))))
]

-- A row whose id the worker has picked out is ACTIVE, since ids are unique.
module _ (locked : ℕ → Bool) (batch : ℕ) (s : Store) (v : IsWithin s) where
  pub running :
      (a : Allocation)
      → Member a s.allocations
      → mem_id a.id (allocation_ids (stranded locked batch s)) ≡ true
      → is_running a.status ≡ true
  unfolding stranded is_stranded
  running a m h =
      let passed : is_stranded locked s.entitlements a ≡ true =
        batch_sound Allocation.id (is_stranded locked s.entitlements) batch s.allocations a
          v.allocation_ids m h in
      ground arith

  fewer :
      (q : Allocation → Bool)
      → ((a : Allocation)
          → is_running a.status ≡ true
          → q (require_deactivation a) ≡ true
          → q a ≡ true)
      → count_where q (
          update_where
            (λ a. mem_id a.id (allocation_ids (stranded locked batch s)))
            require_deactivation
            s.allocations)
        ≤ count_where q s.allocations
  fewer q k =
      count-update_All q (λ a. mem_id a.id (allocation_ids (stranded locked batch s)))
        require_deactivation s.allocations
        (All-of_Member _ s.allocations (λ a m h. k a (running a m h)))

  require_all-IsWithin :
      (worker_id : ℕ) → IsWithin (require_all (stranded locked batch s) worker_id s)
  unfolding require_all require_deactivation
  require_all-IsWithin worker_id = record {
    allocation_ids =
        Unique-update Allocation.id _ require_deactivation s.allocations (λ x. refl)
          v.allocation_ids;
    account_ids = v.account_ids;
    entitlement_ids = v.entitlement_ids;
    accounts_within =
        All-map_pred _ _ s.accounts
          (λ acc h. omega (arith, fewer (on_account acc.id) (λ a r k. ground arith)))
          v.accounts_within;
    entitlements_within =
        All-map_pred _ _ s.entitlements
          (λ e h. omega (arith, fewer (open_on e.id) (λ a r k. ground arith)))
          v.entitlements_within;
    one_open = λ i d. omega (arith, fewer (open_at i d) (λ a r k. ground arith), v.one_open i d);
    one_active =
        λ i d. omega (arith, fewer (active_in i d) (λ a r k. ground arith), v.one_active i d);
  }

pub reconcile_allocations-IsWithin :
    (locked : ℕ → Bool) (batch_size : Option ℕ) (worker_id : ℕ) (s : Store)
    → IsWithin s
    → IsWithin (reconcile_allocations locked batch_size worker_id s).1
unfolding reconcile_allocations
reconcile_allocations-IsWithin locked batch_size worker_id s v =
    require_all-IsWithin locked (or_default batch_size 100) s v worker_id
