-- ===== src/Allocation/Statuses.antt =====
-- The status of a provider account tells whether it is full: what each step does to it.
use d_n_i_p.Prelude.{
  ℕ, ℤ, pos, ◌≡◌, refl, inl, inr, Bool, true, false, not, some, [], ◌∷◌, ◌++◌, ◌==◌, arith, leb_ℤ,
  update_where, All, Member, Bool-cases,
}
use d_n_i_p.Prelude.Rows.{
  count-All-false, count-update_one, Unique-same, All-map_pred, All-append, All-each,
}
use d_n_i_p.Allocation.Model.{
  Allocation, Account, ProviderAccountStatus, Store, on_account, consumed, find_allocation,
}
use d_n_i_p.Allocation.Accounts.{
  CreateParams, new_account, UpdateParams, resolved_status, updated_account, or_else,
}
use d_n_i_p.Allocation.Outcome.{with_row}
use d_n_i_p.Allocation.Seats.{IsWithin}
use d_n_i_p.Allocation.Capacity.{NoRow}

-- An account that is not SUSPENDED is EXHAUSTED if it is full, and ACTIVE if it is not.
abbrev pub told : ProviderAccountStatus → ℤ → ℕ → Bool
told ProviderAccountStatus.suspended total n = true
told ProviderAccountStatus.exhausted total n = leb_ℤ total (pos n)
told ProviderAccountStatus.active total n = not (leb_ℤ total (pos n))

abbrev pub IsTold : Store → Type 0
IsTold s =
    All (λ acc. told acc.status acc.total_capacity (consumed acc.id s.allocations) ≡ true)
      s.accounts

pub kept-IsTold :
    (s s' : Store)
    → s'.accounts ≡ s.accounts
    → ((i : ℕ) → consumed i s'.allocations ≡ consumed i s.allocations)
    → IsTold s
    → IsTold s'
kept-IsTold s s' accs same t = rw accs (All-map_pred _ _ s.accounts (λ acc h. rw (same acc.id) h) t)

-- A change of one row that counts for an account as before.
module _ (s : Store) (j : ℕ) (a : Allocation) (f : Allocation → Allocation) (v : IsWithin s)
    (held : find_allocation j s.allocations ≡ some a) where
  pub consumed-keep :
      (i : ℕ)
      → on_account i (f a) ≡ on_account i a
      → consumed i (update_where (λ x. x.id == a.id) f s.allocations) ≡ consumed i s.allocations
  consumed-keep i same = ground (
    arith,
    count-update_one Allocation.id (on_account i) (λ x. x.id == j) f s.allocations a
        v.allocation_ids held,
  )

  pub with_row-IsTold :
      ((i : ℕ) → on_account i (f a) ≡ on_account i a) → IsTold s → IsTold (with_row a.id f s)
  with_row-IsTold same t = kept-IsTold s (with_row a.id f s) refl (λ i. consumed-keep i (same i)) t

pub new_account-IsTold :
    (p : CreateParams) (n : ℤ) (new_id : ℕ) (s : Store)
    → IsTold s
    → NoRow new_id s
    → leb_ℤ n (pos 0) ≡ false
    → IsTold (record s { accounts = s.accounts ++ new_account p n new_id ∷ [] })
unfolding new_account
new_account-IsTold p n new_id s t (fresh, unused) positive =
    let none_on : consumed new_id s.allocations ≡ 0 =
      count-All-false (on_account new_id) s.allocations
        (All-map_pred _ _ s.allocations (λ a h. ground arith) unused) in
    All-append _ s.accounts _ t (rw none_on (ground arith))

pub updated_account-IsTold :
    (p : UpdateParams) (a : Account) (s : Store)
    → IsWithin s
    → IsTold s
    → Member a s.accounts
    → let used = consumed a.id s.allocations in
      let st = resolved_status a.status p.status (or_else p.total_capacity a.total_capacity) used in
      IsTold
        (record s { accounts = update_where (λ x. x.id == a.id) (updated_account p st) s.accounts })
unfolding updated_account resolved_status
updated_account-IsTold p a s v t held =
    let used = consumed a.id s.allocations in
    let st = resolved_status a.status p.status (or_else p.total_capacity a.total_capacity) used in
    All-each _ _ (λ x. x.id == a.id) (updated_account p st) s.accounts t
      (λ x m h. elim (Bool-cases (x.id == a.id)) [
        | inl e ↦
            let one : x ≡ a =
              Unique-same Account.id s.accounts x a v.account_ids m held (ground arith) in
            rw (e, one) (ground arith)
        | inr e ↦ rw e h
      ])
