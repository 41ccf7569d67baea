-- ===== src/Allocation/Endings.antt =====
-- The life of an allocation over a history of calls.
use d_n_i_p.Prelude.{
  ℕ, pos, ◌≡◌, refl, inl, inr, Bool, true, false, Option, some, ◌==◌, ltb_ℤ, arith, find?,
  Bool-cases, Option-cases, mem_id, or_default,
}
use d_n_i_p.Prelude.Rows.{find?-Member, find?-update}
use d_n_i_p.Prelude.Batches.{batch_sound}
use d_n_i_p.Tx.{transaction_keeps}
use d_n_i_p.Allocation.Model.{
  Allocation, AllocationStatus, Store, find_allocation, find_account, consumed, metadata_error,
  is_open,
}
use d_n_i_p.Allocation.Accounts.{
  CreateParams, creation_check, create_account_tx, create_account, UpdateParams, update_account_tx,
  update_account, or_else,
}
use d_n_i_p.Allocation.Reconcile.{
  reconcile_allocations, require_all, require_deactivation, stranded, is_stranded, allocation_ids,
}
use d_n_i_p.Allocation.Outcome.{Result-cases}
use d_n_i_p.Allocation.Seats.{IsWithin}
use d_n_i_p.Allocation.Calls.{Env, Call, step, History, History-IsWithin}
use d_n_i_p.Allocation.Lifecycle.{
  Moves, Leads, Led, running_only, rejected-Led, leaving-Led, confirmed-Led, started-Led,
  requested-Led,
}

create_account_allocations :
    (p : CreateParams) (new_id : ℕ) (s : Store)
    → (create_account p new_id s).1.allocations ≡ s.allocations
unfolding create_account create_account_tx
create_account_allocations p new_id s = elim (Result-cases (creation_check p)) [
  | inr (x, e) ↦ rw (e, create_account) refl
  | inl (n, e) ↦
      rw (e, create_account)
        (transaction_keeps (λ t. t.allocations ≡ s.allocations) (create_account_tx p n new_id) s
          refl
          (λ r s' done. elim (Option-cases (find? (λ w. w.id == p.provider_id) s.providers)) [
            | inl e1 ↦ absurd (ground arith)
            | inr (w, e1) ↦ elim (Bool-cases w.is_active) [
              | inr e2 ↦ absurd (ground arith)
              | inl e2 ↦ ground arith
            ]
          ]))
]

update_account_allocations :
    (p : UpdateParams) (s : Store) → (update_account p s).1.allocations ≡ s.allocations
unfolding update_account update_account_tx
update_account_allocations p s = elim (Option-cases (metadata_error p.metadata)) [
  | inr (x, e) ↦ rw (e, update_account) refl
  | inl e ↦
      rw (e, update_account)
        (transaction_keeps (λ t. t.allocations ≡ s.allocations) (update_account_tx p) s refl
          (λ r s' done. elim (Option-cases (find_account p.provider_account_id s.accounts)) [
            | inl e1 ↦ absurd (ground arith)
            | inr (a, e1) ↦
                elim (Bool-cases (
                  ltb_ℤ (or_else p.total_capacity a.total_capacity)
                    (pos (consumed a.id s.allocations)))) [
                      | inl e2 ↦ absurd (ground arith)
                      | inr e2 ↦ ground arith
                    ]
          ]))
]

reconciled-Led :
    (locked : ℕ → Bool) (batch_size : Option ℕ) (worker_id : ℕ) (s : Store) (i : ℕ) (a : Allocation)
    → IsWithin s
    → find_allocation i s.allocations ≡ some a
    → Led i a (reconcile_allocations locked batch_size worker_id s).1
unfolding reconcile_allocations require_all require_deactivation stranded is_stranded
reconciled-Led locked batch_size worker_id s i a v found =
    let batch = or_default batch_size 100 in
    let ids = allocation_ids (stranded locked batch s) in
    let seen =
      find?-update (λ x. x.id == i) (λ x. mem_id x.id ids) require_deactivation s.allocations
        (λ x _. refl) in
    elim (Bool-cases (mem_id a.id ids)) [
      | inr e ↦ (a, ground arith, Leads.same)
      | inl e ↦
          let picked : is_stranded locked s.entitlements a ≡ true =
            batch_sound Allocation.id (is_stranded locked s.entitlements) batch s.allocations a
              v.allocation_ids (find?-Member (λ x. x.id == i) s.allocations found) e in
          let on : a.status ≡ AllocationStatus.active = running_only a.status (ground arith) in
          (
            require_deactivation a,
            ground arith,
            Leads.move {b = a} Leads.same (rw on Moves.leaves) (refl, refl, refl, refl, refl),
          )
    ]

step-Led :
    (env : Env) (c : Call) (s : Store) (i : ℕ) (a : Allocation)
    → IsWithin s
    → find_allocation i s.allocations ≡ some a
    → Led i a (step env c s)
unfolding step
step-Led env (Call.requests p new_id now) s i a v h =
    requested-Led s i a h env.normalize_domain p new_id now
step-Led env (Call.activates p now) s i a v h = started-Led s i a h p now
step-Led env (Call.rejects p) s i a v h = rejected-Led s i a h p
step-Led env (Call.requests_deactivation p now) s i a v h = leaving-Led s i a h env.iso p now
step-Led env (Call.confirms p now) s i a v h = confirmed-Led s i a h p now
step-Led env (Call.reconciles locked batch worker) s i a v h =
    reconciled-Led locked batch worker s i a v h
step-Led env (Call.creates_account p new_id) s i a v h =
    (a, rw (create_account_allocations p new_id s) h, Leads.same)
step-Led env (Call.updates_account p) s i a v h =
    (a, rw (update_account_allocations p s) h, Leads.same)

Leads-Leads : (a b c : Allocation) → Leads a b → Leads b c → Leads a c
Leads-Leads a b c m Leads.same = m
Leads-Leads a b c m (Leads.move {b = d} n st right) =
    Leads.move {b = d} (Leads-Leads a b d m n) st right

-- Whatever the calls, an allocation is never deleted and never changes its right, user, provider
-- or domain, and its status changes only along PENDING to ACTIVE or REJECTED, ACTIVE to
-- DEACTIVATION_PENDING, and DEACTIVATION_PENDING to DEACTIVATED, if the store is within its seats
-- at the start and the database draws unused ids.
pub History-Led :
    (env : Env) (s t : Store) (i : ℕ) (a : Allocation)
    → IsWithin s
    → find_allocation i s.allocations ≡ some a
    → History env s t
    → (b : Allocation) × (find_allocation i t.allocations ≡ some b) × Leads a b
History-Led env s t i a v h History.here = (a, h, Leads.same)
History-Led env s t i a v h (History.next {t = m} c r f e) =
    let (b, hb, lb) = History-Led env s m i a v h r in
    let (d, hd, ld) = step-Led env c m i b (History-IsWithin env s m v r) hb in
    (d, rw (← e) hd, Leads-Leads a b d lb ld)

no_way_back : (st st' : AllocationStatus) → Moves st st' → is_open st ≡ true
no_way_back st st' Moves.starts = refl
no_way_back st st' Moves.turns_down = refl
no_way_back st st' Moves.leaves = refl
no_way_back st st' Moves.ends = refl

Leads-closed : (a b : Allocation) → is_open a.status ≡ false → Leads a b → a ≡ b
Leads-closed a b h Leads.same = refl
Leads-closed a b h (Leads.move {b = d} n st right) =
    let eq : a ≡ d = Leads-closed a d h n in
    let opened : is_open d.status ≡ true = no_way_back d.status b.status st in absurd (ground arith)

-- Whatever the calls, an allocation that is DEACTIVATED or REJECTED is found again unchanged in
-- every column, its metadata included, if the store is within its seats at the start and the
-- database draws unused ids.
pub History-closed :
    (env : Env) (s t : Store) (i : ℕ) (a : Allocation)
    → IsWithin s
    → find_allocation i s.allocations ≡ some a
    → is_open a.status ≡ false
    → History env s t
    → find_allocation i t.allocations ≡ some a
History-closed env s t i a v h closed r =
    let (b, hb, lb) = History-Led env s t i a v h r in rw (Leads-closed a b closed lb) hb
