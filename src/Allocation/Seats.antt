-- ===== src/Allocation/Seats.antt =====
-- The seats of provider accounts and of entitlements, and the domains in use: what the engine
-- keeps true of the allocations table, and how one change of a row bears on it.
use d_n_i_p.Prelude.{
  ℕ, ◌≤◌, ◌≡◌, refl, Bool, true, Option, some, ◌==◌, arith, to_ℕ, find?, count_where, update_where,
  All, Unique,
}
use d_n_i_p.Prelude.Rows.{count-update_one_le, Unique-update, All-map_pred, All-update}
use d_n_i_p.Entitlement.Model.{Entitlement, seats}
use d_n_i_p.Allocation.Model.{
  Allocation, Account, ProviderAccountStatus, Event, Store, on_account, open_on, open_at, active_in,
  consumed, write_audit,
}
use d_n_i_p.Allocation.Review.{set_account_status}

pub record IsWithin (s : Store) : Type 0 where
  pub allocation_ids : Unique Allocation.id s.allocations
  pub account_ids : Unique Account.id s.accounts
  pub entitlement_ids : Unique Entitlement.id s.entitlements
  pub accounts_within :
      All (λ acc. consumed acc.id s.allocations ≤ to_ℕ acc.total_capacity) s.accounts
  pub entitlements_within :
      All (λ e. count_where (open_on e.id) s.allocations ≤ seats e.max_activations) s.entitlements
  pub one_open : (eid domain : ℕ) → count_where (open_at eid domain) s.allocations ≤ 1
  pub one_active : (pid domain : ℕ) → count_where (active_in pid domain) s.allocations ≤ 1

-- The audit log is no part of it.
pub write_audit-IsWithin :
    (entity : ℕ) (actor : Option ℕ) (e : Event) (s : Store)
    → IsWithin s
    → IsWithin (write_audit entity actor e s)
write_audit-IsWithin entity actor e s v = record {
  allocation_ids = v.allocation_ids;
  account_ids = v.account_ids;
  entitlement_ids = v.entitlement_ids;
  accounts_within = v.accounts_within;
  entitlements_within = v.entitlements_within;
  one_open = v.one_open;
  one_active = v.one_active;
}

-- Nor is the status of an account.
pub set_account_status-IsWithin :
    (i : ℕ) (st : ProviderAccountStatus) (s : Store)
    → IsWithin s
    → IsWithin (set_account_status i st s)
unfolding set_account_status
set_account_status-IsWithin i st s v = record {
  allocation_ids = v.allocation_ids;
  account_ids =
      Unique-update Account.id (λ x. x.id == i) (λ x. record x { status = st }) s.accounts
        (λ x. refl) v.account_ids;
  entitlement_ids = v.entitlement_ids;
  accounts_within =
      All-update _ (λ x. x.id == i) (λ x. record x { status = st }) s.accounts (λ x _ h. h)
        v.accounts_within;
  entitlements_within = v.entitlements_within;
  one_open = v.one_open;
  one_active = v.one_active;
}

-- A change of one row that takes it into no count.
module _ (s : Store) (p : Allocation → Bool) (a : Allocation) (f : Allocation → Allocation)
    (held : find? p s.allocations ≡ some a) (same_id : (x : Allocation) → (f x).id ≡ x.id)
    (v : IsWithin s) where
  abbrev pub moved : Store
  moved = record s { allocations = update_where (λ x. x.id == a.id) f s.allocations }

  moved_le :
      (q : Allocation → Bool)
      → (q (f a) ≡ true → q a ≡ true)
      → count_where q moved.allocations ≤ count_where q s.allocations
  moved_le q k = count-update_one_le Allocation.id q p f s.allocations a v.allocation_ids held k

  pub leave-IsWithin :
      ((i : ℕ) → on_account i (f a) ≡ true → on_account i a ≡ true)
      → ((i : ℕ) → open_on i (f a) ≡ true → open_on i a ≡ true)
      → ((i d : ℕ) → open_at i d (f a) ≡ true → open_at i d a ≡ true)
      → ((i d : ℕ) → active_in i d (f a) ≡ true → active_in i d a ≡ true)
      → IsWithin moved
  leave-IsWithin accounts opens domains actives = record {
    allocation_ids =
        Unique-update Allocation.id (λ x. x.id == a.id) f s.allocations same_id v.allocation_ids;
    account_ids = v.account_ids;
    entitlement_ids = v.entitlement_ids;
    accounts_within =
        All-map_pred (λ acc. consumed acc.id s.allocations ≤ to_ℕ acc.total_capacity) _ s.accounts
          (λ acc h. omega (arith, moved_le (on_account acc.id) (accounts acc.id)))
          v.accounts_within;
    entitlements_within =
        All-map_pred (λ e. count_where (open_on e.id) s.allocations ≤ seats e.max_activations) _
          s.entitlements (λ e h. omega (arith, moved_le (open_on e.id) (opens e.id)))
          v.entitlements_within;
    one_open = λ i d. omega (arith, moved_le (open_at i d) (domains i d), v.one_open i d);
    one_active = λ i d. omega (arith, moved_le (active_in i d) (actives i d), v.one_active i d);
  }
