-- ===== src/Allocation/Truth.antt =====
-- What the status of a provider account tells over a history of calls.
use d_n_i_p.Prelude.{
  ℕ, pos, ◌≡◌, refl, inl, inr, Bool, false, Option, [], ◌∷◌, ◌++◌, ◌==◌, arith, leb_ℤ, ltb_ℤ, ℤ,
  find?, update_where, Bool-cases, Option-cases, mem_id, or_default,
}
use d_n_i_p.Prelude.Rows.{find?-Member, count-append, All-of_Member}
use d_n_i_p.Prelude.Batches.{count-update_same}
use d_n_i_p.Text.{Text}
use d_n_i_p.Tx.{ok, transaction_keeps}
use d_n_i_p.Allocation.Model.{Store, on_account, consumed, find_account, metadata_error}
use d_n_i_p.Allocation.Requests.{
  RequestParams, new_allocation, request_tx, request_allocation, DeactivationParams, leave_pending,
  deactivation_tx, request_deactivation,
}
use d_n_i_p.Allocation.Review.{
  ActivateParams, activate_allocation_tx, activate_allocation, RejectParams, turn_down, reject_tx,
  reject_allocation, ConfirmParams, confirm_tx, confirm_deactivated,
}
use d_n_i_p.Allocation.Accounts.{
  CreateParams, creation_check, new_account, create_account_tx, create_account, UpdateParams,
  update_account_tx, update_account, or_else, resolved_status, updated_account, is_blank,
}
use d_n_i_p.Allocation.Reconcile.{
  reconcile_allocations, require_all, require_deactivation, stranded, allocation_ids,
}
use d_n_i_p.Allocation.Outcome.{
  Result-cases, activate_allocation_tx_inv, request_tx_inv, reject_tx_inv, deactivation_tx_inv,
  confirm_tx_inv,
}
use d_n_i_p.Allocation.Seats.{IsWithin}
use d_n_i_p.Allocation.Leave.{running, with_row-confirm-IsWithin}
use d_n_i_p.Allocation.Enter.{with_row-start-IsWithin}
use d_n_i_p.Allocation.Capacity.{NoRow}
use d_n_i_p.Allocation.Statuses.{
  IsTold, kept-IsTold, with_row-IsTold, new_account-IsTold, updated_account-IsTold,
}
use d_n_i_p.Allocation.Settled.{started-IsTold, confirmed-IsTold}
use d_n_i_p.Allocation.Calls.{Env, Call, step, DrawsUnused, History, History-IsWithin}

module _ (s : Store) (v : IsWithin s) (t : IsTold s) where
  reject-IsTold : (p : RejectParams) → IsTold (reject_allocation p s).1
  unfolding reject_allocation turn_down
  reject-IsTold p = elim (Option-cases (metadata_error p.metadata)) [
    | inr (x, e) ↦ rw (e, reject_allocation) t
    | inl e ↦
        rw (e, reject_allocation)
          (transaction_keeps IsTold (reject_tx p) s t (λ r s' done.
            let (a, held, waiting, _, stored) = reject_tx_inv p s r s' done in
            rw stored
              (with_row-IsTold s p.allocation_id a (turn_down p) v held (λ i. ground arith) t)))
  ]

  deactivation-IsTold :
      (iso : ℕ → Text) (p : DeactivationParams) (now : ℕ)
      → IsTold (request_deactivation iso p now s).1
  unfolding request_deactivation leave_pending
  deactivation-IsTold iso p now = elim (Option-cases (metadata_error p.metadata)) [
    | inr (x, e) ↦ rw (e, request_deactivation) t
    | inl e ↦
        rw (e, request_deactivation)
          (transaction_keeps IsTold (deactivation_tx iso p now) s t (λ r s' done.
            let (a, held, on, _, stored) = deactivation_tx_inv iso p now s r s' done in
            rw stored (
              with_row-IsTold s p.allocation_id a (leave_pending iso p now) v held
                (λ i. ground arith) t)))
  ]

  confirm-IsTold : (p : ConfirmParams) (now : ℕ) → IsTold (confirm_deactivated p now s).1
  unfolding confirm_deactivated
  confirm-IsTold p now = elim (Option-cases (metadata_error p.metadata)) [
    | inr (x, e) ↦ rw (e, confirm_deactivated) t
    | inl e ↦
        rw (e, confirm_deactivated)
          (transaction_keeps IsTold (confirm_tx p now) s t (λ r s' done.
            let (a, held, waiting, _, stored) = confirm_tx_inv p now s r s' done in
            rw stored
              (confirmed-IsTold p now s v t a held (with_row-confirm-IsWithin p now s v a held))))
  ]

  activate-IsTold : (p : ActivateParams) (now : ℕ) → IsTold (activate_allocation p now s).1
  unfolding activate_allocation
  activate-IsTold p now = elim (Option-cases (metadata_error p.metadata)) [
    | inr (x, e) ↦ rw (e, activate_allocation) t
    | inl e ↦
        rw (e, activate_allocation)
          (transaction_keeps IsTold (activate_allocation_tx p now) s t (λ r s' done.
            let (a, parent, acc, held, waiting, _, _, account, fits, room, free, _, stored) =
              activate_allocation_tx_inv p now s r s' done in
            rw stored (
              started-IsTold p now s v t a acc held waiting account fits
                (with_row-start-IsWithin p now s v a acc held waiting account room free))))
  ]

  request-IsTold :
      (normalize_domain : Text → Option ℕ) (p : RequestParams) (new_id now : ℕ)
      → IsTold (request_allocation normalize_domain p new_id now s).1
  unfolding request_allocation new_allocation
  request-IsTold normalize_domain p new_id now = elim (Option-cases (metadata_error p.metadata)) [
    | inr (x, e) ↦ rw (e, request_allocation) t
    | inl e ↦ elim (Option-cases (normalize_domain p.domain)) [
      | inl e2 ↦ rw (e, request_allocation, e2) t
      | inr (domain, e2) ↦
          rw (e, request_allocation, e2)
            (transaction_keeps IsTold (request_tx p domain new_id now) s t (λ r s' done.
              let (e, m, w, _, _, _, _, _, _, _, stored) =
                request_tx_inv p domain new_id now s r s' done in
              kept-IsTold s s' (rw stored refl)
                (λ i. rw stored (
                  ground (
                    arith,
                    count-append (on_account i) s.allocations
                        (new_allocation p e.id domain w new_id ∷ []),
                  )))
                t))
    ]
  ]

  reconcile-IsTold :
      (locked : ℕ → Bool) (batch_size : Option ℕ) (worker_id : ℕ)
      → IsTold (reconcile_allocations locked batch_size worker_id s).1
  unfolding reconcile_allocations require_all require_deactivation
  reconcile-IsTold locked batch_size worker_id =
      let batch = or_default batch_size 100 in
      kept-IsTold s (require_all (stranded locked batch s) worker_id s) refl
        (λ i.
          count-update_same (on_account i)
            (λ a. mem_id a.id (allocation_ids (stranded locked batch s))) require_deactivation
            s.allocations
            (All-of_Member _ s.allocations
              (λ a m h. ground (arith, running locked batch s v a m h))))
        t

creation_positive : (p : CreateParams) (n : ℤ) → creation_check p ≡ ok n → leb_ℤ n (pos 0) ≡ false
unfolding creation_check
creation_positive p n h = elim (Option-cases (metadata_error p.metadata)) [
  | inr (x, e) ↦ absurd (ground arith)
  | inl e ↦ elim (Bool-cases (is_blank p.name)) [
    | inl e1 ↦ absurd (ground arith)
    | inr e1 ↦ elim (Option-cases p.total_capacity) [
      | inl e2 ↦ absurd (ground arith)
      | inr (m, e2) ↦ ground arith
    ]
  ]
]

create-IsTold :
    (p : CreateParams) (new_id : ℕ) (s : Store)
    → IsTold s
    → NoRow new_id s
    → IsTold (create_account p new_id s).1
unfolding create_account create_account_tx
create-IsTold p new_id s t unused = elim (Result-cases (creation_check p)) [
  | inr (x, e) ↦ rw (e, create_account) t
  | inl (n, e) ↦
      rw (e, create_account)
        (transaction_keeps IsTold (create_account_tx p n new_id) s t (λ r s' done.
          elim (Option-cases (find? (λ w. w.id == p.provider_id) s.providers)) [
            | inl e1 ↦ absurd (ground arith)
            | inr (w, e1) ↦ elim (Bool-cases w.is_active) [
              | inr e2 ↦ absurd (ground arith)
              | inl e2 ↦
                  let made : Store = record s {
                    accounts = s.accounts ++ new_account p n new_id ∷ [];
                  } in
                  let accs : s'.accounts ≡ made.accounts = ground arith in
                  let allocs : s'.allocations ≡ s.allocations = ground arith in
                  kept-IsTold made s' accs (λ i. rw allocs refl)
                    (new_account-IsTold p n new_id s t unused (creation_positive p n e))
            ]
          ]))
]

update-IsTold :
    (p : UpdateParams) (s : Store) → IsWithin s → IsTold s → IsTold (update_account p s).1
unfolding update_account update_account_tx
update-IsTold p s v t = elim (Option-cases (metadata_error p.metadata)) [
  | inr (x, e) ↦ rw (e, update_account) t
  | inl e ↦
      rw (e, update_account)
        (transaction_keeps IsTold (update_account_tx p) s t (λ r s' done.
          elim (Option-cases (find_account p.provider_account_id s.accounts)) [
            | inl e1 ↦ absurd (ground arith)
            | inr (a, e1) ↦
                let used = consumed a.id s.allocations in
                let capacity = or_else p.total_capacity a.total_capacity in
                elim (Bool-cases (ltb_ℤ capacity (pos used))) [
                  | inl e2 ↦ absurd (ground arith)
                  | inr e2 ↦
                      let st = resolved_status a.status p.status capacity used in
                      let made : Store = record s {
                        accounts =
                            update_where (λ x. x.id == a.id) (updated_account p st) s.accounts;
                      } in
                      let accs : s'.accounts ≡ made.accounts = ground arith in
                      let allocs : s'.allocations ≡ s.allocations = ground arith in
                      kept-IsTold made s' accs (λ i. rw allocs refl)
                        (updated_account-IsTold p a s v t
                          (find?-Member (λ x. x.id == p.provider_account_id) s.accounts e1))
                ]
          ]))
]

step-IsTold :
    (env : Env) (c : Call) (s : Store)
    → DrawsUnused c s
    → IsWithin s
    → IsTold s
    → IsTold (step env c s)
unfolding step
step-IsTold env (Call.requests p new_id now) s f v t =
    request-IsTold s v t env.normalize_domain p new_id now
step-IsTold env (Call.activates p now) s f v t = activate-IsTold s v t p now
step-IsTold env (Call.rejects p) s f v t = reject-IsTold s v t p
step-IsTold env (Call.requests_deactivation p now) s f v t = deactivation-IsTold s v t env.iso p now
step-IsTold env (Call.confirms p now) s f v t = confirm-IsTold s v t p now
step-IsTold env (Call.reconciles locked batch worker) s f v t =
    reconcile-IsTold s v t locked batch worker
step-IsTold env (Call.creates_account p new_id) s f v t = create-IsTold p new_id s t f
step-IsTold env (Call.updates_account p) s f v t = update-IsTold p s v t

-- Whatever the calls, a provider account that is not SUSPENDED is EXHAUSTED exactly if its
-- consuming allocations fill its capacity, and ACTIVE otherwise, if that holds at the start, the
-- store is within its seats then, and the database draws unused ids for new rows.
pub History-IsTold : (env : Env) (s t : Store) → IsWithin s → IsTold s → History env s t → IsTold t
History-IsTold env s t v told_at History.here = told_at
History-IsTold env s t v told_at (History.next {t = m} c r f e) =
    rw (← e)
      (step-IsTold env c m f (History-IsWithin env s m v r) (History-IsTold env s m v told_at r))
