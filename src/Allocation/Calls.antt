-- ===== src/Allocation/Calls.antt =====
-- Histories of calls of the allocation engine.
use d_n_i_p.Prelude.{ℕ, ◌≡◌, ◌≢◌, Bool, Option, All}
use d_n_i_p.Text.{Text}
use d_n_i_p.Allocation.Model.{Store}
use d_n_i_p.Allocation.Requests.{
  RequestParams, request_allocation, DeactivationParams, request_deactivation,
}
use d_n_i_p.Allocation.Review.{
  ActivateParams, activate_allocation, RejectParams, reject_allocation, ConfirmParams,
  confirm_deactivated,
}
use d_n_i_p.Allocation.Accounts.{CreateParams, create_account, UpdateParams, update_account}
use d_n_i_p.Allocation.Reconcile.{reconcile_allocations}
use d_n_i_p.Allocation.Seats.{IsWithin}
use d_n_i_p.Allocation.Leave.{
  reject_allocation-IsWithin, request_deactivation-IsWithin, confirm_deactivated-IsWithin,
  reconcile_allocations-IsWithin,
}
use d_n_i_p.Allocation.Enter.{activate_allocation-IsWithin, request_allocation-IsWithin}
use d_n_i_p.Allocation.Capacity.{NoRow, create_account-IsWithin, update_account-IsWithin}

-- What the engine takes from other code: normalizeDomain, and the text of a date.
pub record Env : Type 0 where
  pub normalize_domain : Text → Option ℕ
  pub iso : ℕ → Text

-- Every entry point that writes, with its arguments and what it draws.
pub data Call : Type 0 where
  requests : (p : RequestParams) (new_id now : ℕ) → Call
  activates : (p : ActivateParams) (now : ℕ) → Call
  rejects : (p : RejectParams) → Call
  requests_deactivation : (p : DeactivationParams) (now : ℕ) → Call
  confirms : (p : ConfirmParams) (now : ℕ) → Call
  reconciles : (locked : ℕ → Bool) (batch_size : Option ℕ) (worker_id : ℕ) → Call
  creates_account : (p : CreateParams) (new_id : ℕ) → Call
  updates_account : (p : UpdateParams) → Call

unfoldable pub step : Env → Call → Store → Store
step env (Call.requests p new_id now) s = (request_allocation env.normalize_domain p new_id now s).1
step env (Call.activates p now) s = (activate_allocation p now s).1
step env (Call.rejects p) s = (reject_allocation p s).1
step env (Call.requests_deactivation p now) s = (request_deactivation env.iso p now s).1
step env (Call.confirms p now) s = (confirm_deactivated p now s).1
step env (Call.reconciles locked batch worker) s = (reconcile_allocations locked batch worker s).1
step env (Call.creates_account p new_id) s = (create_account p new_id s).1
step env (Call.updates_account p) s = (update_account p s).1

-- The ids that the database draws for new rows are not in use.
abbrev pub DrawsUnused : Call → Store → Type 0
DrawsUnused (Call.requests p new_id now) s = All (λ a. a.id ≢ new_id) s.allocations
DrawsUnused (Call.creates_account p new_id) s = NoRow new_id s
DrawsUnused _ s = Unit

-- The stores that a history of calls leads to.
pub data History (env : Env) (s : Store) : Store → Type 0 where
  here : History env s s
  next :
      {t u : Store} (c : Call)
      → History env s t
      → DrawsUnused c t
      → step env c t ≡ u
      → History env s u

step-IsWithin :
    (env : Env) (c : Call) (s : Store) → DrawsUnused c s → IsWithin s → IsWithin (step env c s)
unfolding step
step-IsWithin env (Call.requests p new_id now) s f v =
    request_allocation-IsWithin env.normalize_domain p new_id now s v f
step-IsWithin env (Call.activates p now) s f v = activate_allocation-IsWithin p now s v
step-IsWithin env (Call.rejects p) s f v = reject_allocation-IsWithin p s v
step-IsWithin env (Call.requests_deactivation p now) s f v =
    request_deactivation-IsWithin env.iso p now s v
step-IsWithin env (Call.confirms p now) s f v = confirm_deactivated-IsWithin p now s v
step-IsWithin env (Call.reconciles locked batch worker) s f v =
    reconcile_allocations-IsWithin locked batch worker s v
step-IsWithin env (Call.creates_account p new_id) s f v = create_account-IsWithin p new_id s v f
step-IsWithin env (Call.updates_account p) s f v = update_account-IsWithin p s v

-- Whatever the calls, no provider account ever has more consuming allocations than its capacity,
-- no entitlement more open allocations than its seats, no entitlement two open allocations for
-- one domain, and no provider two active allocations for one domain, if that holds at the start
-- and the database draws unused ids for new rows.
pub History-IsWithin : (env : Env) (s t : Store) → IsWithin s → History env s t → IsWithin t
History-IsWithin env s t v History.here = v
History-IsWithin env s t v (History.next {t = m} c r f e) =
    rw (← e) (step-IsWithin env c m f (History-IsWithin env s m v r))
