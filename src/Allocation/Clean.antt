-- ===== src/Allocation/Clean.antt =====
-- No history of calls stores metadata with a secret-like key.
use d_n_i_p.Prelude.{
  ℕ, ℤ, pos, ◌≡◌, inl, inr, Bool, Option, none, some, [], ◌∷◌, ◌++◌, ◌==◌, arith, ltb_ℤ, leb_ℤ, ◌+◌,
  find?, update_where, Bool-cases, Option-cases,
}
use d_n_i_p.Prelude.Rows.{All-update, All-append}
use d_n_i_p.Text.{Text}
use d_n_i_p.Json.{Fields}
use d_n_i_p.Json.Secrets.{NoSecretFields}
use d_n_i_p.Tx.{ok, transaction_keeps}
use d_n_i_p.Allocation.Model.{
  Allocation, Account, ProviderAccountStatus, Store, metadata_error, find_account, consumed,
}
use d_n_i_p.Allocation.Requests.{
  RequestParams, new_allocation, request_tx, request_allocation, DeactivationParams, leave_pending,
  deactivation_tx, request_deactivation,
}
use d_n_i_p.Allocation.Review.{
  ActivateParams, start, activate_allocation_tx, activate_allocation, RejectParams, turn_down,
  reject_tx, reject_allocation, ConfirmParams, confirm, confirm_tx, confirm_deactivated,
  settle_account, set_account_status, next_status,
}
use d_n_i_p.Allocation.Accounts.{
  CreateParams, creation_check, new_account, create_account_tx, create_account, UpdateParams,
  update_account_tx, update_account, or_else, resolved_status, updated_account,
}
use d_n_i_p.Allocation.Reconcile.{reconcile_allocations, require_all, require_deactivation}
use d_n_i_p.Allocation.Outcome.{
  with_row, fill, Result-cases, activate_allocation_tx_inv, request_tx_inv, reject_tx_inv,
  deactivation_tx_inv, confirm_tx_inv,
}
use d_n_i_p.Allocation.Secrets.{
  Clean, CleanAccount, IsClean, start-Clean, turn_down-Clean, leave_pending-Clean, confirm-Clean,
  metadata_error-NoSecret,
}
use d_n_i_p.Allocation.Calls.{Env, Call, step, History}

-- The rows that a store has, and the accounts.
module _ (s : Store) (c : IsClean s) where
  with_row-Clean :
      (i : ℕ) (f : Allocation → Allocation)
      → ((a : Allocation) → Clean a → Clean (f a))
      → IsClean (with_row i f s)
  with_row-Clean i f k =
      (All-update Clean (λ x. x.id == i) f s.allocations (λ x _ h. k x h) c.0, c.1)

  set_status-Clean : (i : ℕ) (st : ProviderAccountStatus) → IsClean (set_account_status i st s)
  unfolding set_account_status
  set_status-Clean i st =
      (c.0, All-update CleanAccount (λ x. x.id == i) _ s.accounts (λ x _ h. h) c.1)

  fill-Clean : (acc : Account) (n : ℕ) → IsClean (fill acc n s)
  fill-Clean acc n = elim (Bool-cases (leb_ℤ acc.total_capacity (pos (n + 1)))) [
    | inl e ↦ rw e (set_status-Clean acc.id ProviderAccountStatus.exhausted)
    | inr e ↦ rw e c
  ]

  settle-Clean : (o : Option ℕ) → IsClean (settle_account o s)
  unfolding settle_account
  settle-Clean none = c
  settle-Clean (some i) = elim (Option-cases (find_account i s.accounts)) [
    | inl e ↦ rw (e, settle_account) c
    | inr (acc, e) ↦
        rw (e, settle_account)
          (set_status-Clean acc.id
            (next_status acc.status acc.total_capacity (consumed acc.id s.allocations)))
  ]

  reject-Clean : (p : RejectParams) → IsClean (reject_allocation p s).1
  unfolding reject_allocation
  reject-Clean p = elim (Option-cases (metadata_error p.metadata)) [
    | inr (x, e) ↦ rw (e, reject_allocation) c
    | inl e ↦
        rw (e, reject_allocation)
          (transaction_keeps IsClean (reject_tx p) s c (λ r s' done.
            let (a, _, _, _, stored) = reject_tx_inv p s r s' done in
            rw stored (with_row-Clean a.id (turn_down p) (λ x h. turn_down-Clean p x e h))))
  ]

  deactivation-Clean :
      (iso : ℕ → Text) (p : DeactivationParams) (now : ℕ)
      → IsClean (request_deactivation iso p now s).1
  unfolding request_deactivation
  deactivation-Clean iso p now = elim (Option-cases (metadata_error p.metadata)) [
    | inr (x, e) ↦ rw (e, request_deactivation) c
    | inl e ↦
        rw (e, request_deactivation)
          (transaction_keeps IsClean (deactivation_tx iso p now) s c (λ r s' done.
            let (a, _, _, _, stored) = deactivation_tx_inv iso p now s r s' done in
            rw stored (
              with_row-Clean a.id (leave_pending iso p now)
                (λ x h. leave_pending-Clean iso p now x h))))
  ]

  request-Clean :
      (normalize_domain : Text → Option ℕ) (p : RequestParams) (new_id now : ℕ)
      → IsClean (request_allocation normalize_domain p new_id now s).1
  unfolding request_allocation new_allocation
  request-Clean normalize_domain p new_id now = elim (Option-cases (metadata_error p.metadata)) [
    | inr (x, e) ↦ rw (e, request_allocation) c
    | inl e ↦ elim (Option-cases (normalize_domain p.domain)) [
      | inl e2 ↦ rw (e, request_allocation, e2) c
      | inr (domain, e2) ↦
          rw (e, request_allocation, e2)
            (transaction_keeps IsClean (request_tx p domain new_id now) s c (λ r s' done.
              let (x, m, w, _, _, _, _, _, _, _, stored) =
                request_tx_inv p domain new_id now s r s' done in
              rw stored (
                All-append Clean s.allocations (new_allocation p x.id domain w new_id) c.0
                    (metadata_error-NoSecret p.metadata e),
                c.1,
              )))
    ]
  ]

confirmed-Clean :
    (p : ConfirmParams) (now : ℕ) (s : Store) → IsClean s → IsClean (confirm_deactivated p now s).1
unfolding confirm_deactivated
confirmed-Clean p now s c = elim (Option-cases (metadata_error p.metadata)) [
  | inr (x, e) ↦ rw (e, confirm_deactivated) c
  | inl e ↦
      rw (e, confirm_deactivated)
        (transaction_keeps IsClean (confirm_tx p now) s c (λ r s' done.
          let (a, _, _, _, stored) = confirm_tx_inv p now s r s' done in
          rw stored (
            settle-Clean (with_row a.id (confirm p now) s)
              (with_row-Clean s c a.id (confirm p now) (λ x h. confirm-Clean p now x e h))
              a.provider_account_id)))
]

activate-Clean :
    (p : ActivateParams) (now : ℕ) (s : Store) → IsClean s → IsClean (activate_allocation p now s).1
unfolding activate_allocation
activate-Clean p now s c = elim (Option-cases (metadata_error p.metadata)) [
  | inr (x, e) ↦ rw (e, activate_allocation) c
  | inl e ↦
      rw (e, activate_allocation)
        (transaction_keeps IsClean (activate_allocation_tx p now) s c (λ r s' done.
          let (a, _, acc, _, _, _, _, _, _, _, _, _, stored) =
            activate_allocation_tx_inv p now s r s' done in
          rw stored (
            fill-Clean (with_row a.id (start p acc now) s)
              (with_row-Clean s c a.id (start p acc now) (λ x h. start-Clean p acc now x e h)) acc
              (consumed acc.id s.allocations))))
]

reconcile-Clean :
    (locked : ℕ → Bool) (batch_size : Option ℕ) (worker_id : ℕ) (s : Store)
    → IsClean s
    → IsClean (reconcile_allocations locked batch_size worker_id s).1
unfolding reconcile_allocations require_all require_deactivation
reconcile-Clean locked batch_size worker_id s c =
    (All-update Clean _ require_deactivation s.allocations (λ x _ h. h) c.0, c.1)

creation_check-safe :
    (p : CreateParams) (n : ℤ) → creation_check p ≡ ok n → metadata_error p.metadata ≡ none
unfolding creation_check
creation_check-safe p n h = elim (Option-cases (metadata_error p.metadata)) [
  | inr (x, e) ↦ absurd (ground arith)
  | inl e ↦ e
]

create-Clean :
    (p : CreateParams) (new_id : ℕ) (s : Store) → IsClean s → IsClean (create_account p new_id s).1
unfolding create_account create_account_tx new_account
create-Clean p new_id s c = elim (Result-cases (creation_check p)) [
  | inr (x, e) ↦ rw (e, create_account) c
  | inl (n, e) ↦
      rw (e, create_account)
        (transaction_keeps IsClean (create_account_tx p n new_id) s c (λ r s' done.
          elim (Option-cases (find? (λ w. w.id == p.provider_id) s.providers)) [
            | inl e1 ↦ absurd (ground arith)
            | inr (w, e1) ↦ elim (Bool-cases w.is_active) [
              | inr e2 ↦ absurd (ground arith)
              | inl e2 ↦
                  let accs : s'.accounts ≡ s.accounts ++ new_account p n new_id ∷ [] =
                    ground arith in
                  let allocs : s'.allocations ≡ s.allocations = ground arith in
                  rw (accs, allocs)
                    (
                      c.0,
                      All-append CleanAccount s.accounts (new_account p n new_id) c.1
                          (metadata_error-NoSecret p.metadata (creation_check-safe p n e)),
                    )
            ]
          ]))
]

or_else-NoSecret :
    (o : Option Fields) (fs : Fields)
    → metadata_error o ≡ none
    → NoSecretFields fs
    → NoSecretFields (or_else o fs)
or_else-NoSecret none fs safe h = h
or_else-NoSecret (some gs) fs safe h = metadata_error-NoSecret (some gs) safe

update-Clean : (p : UpdateParams) (s : Store) → IsClean s → IsClean (update_account p s).1
unfolding update_account update_account_tx updated_account
update-Clean p s c = elim (Option-cases (metadata_error p.metadata)) [
  | inr (x, e) ↦ rw (e, update_account) c
  | inl e ↦
      rw (e, update_account)
        (transaction_keeps IsClean (update_account_tx p) s c (λ r s' done.
          elim (Option-cases (find_account p.provider_account_id s.accounts)) [
            | inl e1 ↦ absurd (ground arith)
            | inr (a, e1) ↦
                let used = consumed a.id s.allocations in
                let capacity = or_else p.total_capacity a.total_capacity in
                elim (Bool-cases (ltb_ℤ capacity (pos used))) [
                  | inl e2 ↦ absurd (ground arith)
                  | inr e2 ↦
                      let st = resolved_status a.status p.status capacity used in
                      let accs : s'.accounts
                          ≡ update_where (λ x. x.id == a.id) (updated_account p st) s.accounts =
                        ground arith in
                      let allocs : s'.allocations ≡ s.allocations = ground arith in
                      rw (accs, allocs)
                        (
                          c.0,
                          All-update CleanAccount (λ x. x.id == a.id) (updated_account p st)
                              s.accounts (λ x _ h. or_else-NoSecret p.metadata x.metadata e h) c.1,
                        )
                ]
          ]))
]

step-Clean : (env : Env) (c : Call) (s : Store) → IsClean s → IsClean (step env c s)
unfolding step
step-Clean env (Call.requests p new_id now) s c =
    request-Clean s c env.normalize_domain p new_id now
step-Clean env (Call.activates p now) s c = activate-Clean p now s c
step-Clean env (Call.rejects p) s c = reject-Clean s c p
step-Clean env (Call.requests_deactivation p now) s c = deactivation-Clean s c env.iso p now
step-Clean env (Call.confirms p now) s c = confirmed-Clean p now s c
step-Clean env (Call.reconciles locked batch worker) s c = reconcile-Clean locked batch worker s c
step-Clean env (Call.creates_account p new_id) s c = create-Clean p new_id s c
step-Clean env (Call.updates_account p) s c = update-Clean p s c

-- Whatever the calls, no metadata of an allocation or of a provider account ever has a forbidden
-- key, at any depth, if none has at the start.
pub History-IsClean : (env : Env) (s t : Store) → IsClean s → History env s t → IsClean t
History-IsClean env s t c History.here = c
History-IsClean env s t c (History.next {t = m} call r f e) =
    rw (← e) (step-Clean env call m (History-IsClean env s m c r))
