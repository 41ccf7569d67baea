-- ===== src/Allocation/Settled.antt =====
-- An activation and the confirmation of a deactivation settle the status of the account.
use d_n_i_p.Prelude.{
  ℕ, pos, ◌+◌, ◌≡◌, inl, inr, true, false, none, some, ◌==◌, arith, leb_ℤ, update_where, Member,
  Bool-cases, Option-cases,
}
use d_n_i_p.Prelude.Rows.{
  find?-sound, find?-Member, find?-none-Member, count-update_one, Unique-same, All-each,
  All-of_Member, All-Member,
}
use d_n_i_p.Allocation.Model.{
  Allocation, Account, ProviderAccountStatus, Store, on_account, consumed, find_allocation,
  find_account, is_account, is_pending,
}
use d_n_i_p.Allocation.Review.{
  ActivateParams, start, ConfirmParams, confirm, settle_account, set_account_status, next_status,
  account_error, account_is_active,
}
use d_n_i_p.Allocation.Outcome.{with_row, fill}
use d_n_i_p.Allocation.Seats.{IsWithin}
use d_n_i_p.Allocation.Statuses.{told, IsTold, consumed-keep}

set_told :
    (s : Store) (acc : Account) (st : ProviderAccountStatus)
    → IsWithin s
    → Member acc s.accounts
    → told st acc.total_capacity (consumed acc.id s.allocations) ≡ true
    → ((x : Account)
        → Member x s.accounts
        → (x.id == acc.id) ≡ false
        → told x.status x.total_capacity (consumed x.id s.allocations) ≡ true)
    → IsTold (set_account_status acc.id st s)
unfolding set_account_status
set_told s acc st v held here others =
    All-each (λ _. Unit {0}) _ (λ x. x.id == acc.id) (λ x. record x { status = st }) s.accounts
      (All-of_Member _ s.accounts (λ x m. tt))
      (λ x m _. elim (Bool-cases (x.id == acc.id)) [
        | inl e ↦
            let one : x ≡ acc =
              Unique-same Account.id s.accounts x acc v.account_ids m held (ground arith) in
            rw (e, one) here
        | inr e ↦ rw e (others x m e)
      ])

module _ (p : ActivateParams) (now : ℕ) (s : Store) (v : IsWithin s) (t : IsTold s) (a : Allocation)
    (acc : Account) (held : find_allocation p.allocation_id s.allocations ≡ some a)
    (waiting : is_pending a.status ≡ true)
    (account : find_account p.provider_account_id s.accounts ≡ some acc)
    (fits : account_error acc a ≡ none) (after : IsWithin (with_row a.id (start p acc now) s)) where
  elsewhere :
      (x : Account)
      → Member x s.accounts
      → (x.id == acc.id) ≡ false
      → told x.status x.total_capacity
          (consumed x.id (update_where (λ y. y.id == a.id) (start p acc now) s.allocations))
        ≡ true
  unfolding start
  elsewhere x m other =
      rw (consumed-keep s p.allocation_id a (start p acc now) v held x.id (ground arith)) (
        All-Member (λ y. told y.status y.total_capacity (consumed y.id s.allocations) ≡ true)
          s.accounts x t m)

  one_more :
      consumed acc.id (update_where (λ y. y.id == a.id) (start p acc now) s.allocations)
      ≡ consumed acc.id s.allocations + 1
  unfolding start
  one_more = ground (
    arith,
    count-update_one Allocation.id (on_account acc.id) (λ x. x.id == p.allocation_id)
        (start p acc now) s.allocations a v.allocation_ids held,
  )

  was_active : account_is_active acc.status ≡ true
  unfolding account_error
  was_active = ground (arith, fits)

  pub started-IsTold :
      IsTold (fill acc (consumed acc.id s.allocations) (with_row a.id (start p acc now) s))
  started-IsTold =
      let count = consumed acc.id s.allocations in
      let mid : Store = with_row a.id (start p acc now) s in
      let held_account = find?-Member (λ x. x.id == p.provider_account_id) s.accounts account in
      elim (Bool-cases (leb_ℤ acc.total_capacity (pos (count + 1)))) [
        | inl e ↦ rw e (
            set_told mid acc ProviderAccountStatus.exhausted after held_account (rw one_more e)
              elsewhere)
        | inr e ↦ rw e (
            All-of_Member _ s.accounts (λ x m. elim (Bool-cases (x.id == acc.id)) [
              | inr other ↦ elsewhere x m other
              | inl same ↦
                  let one : x ≡ acc =
                    Unique-same Account.id s.accounts x acc v.account_ids m held_account
                      (ground arith) in
                  rw (one, one_more) (ground (arith, was_active))
            ]))
      ]

module _ (p : ConfirmParams) (now : ℕ) (s : Store) (v : IsWithin s) (t : IsTold s) (a : Allocation)
    (held : find_allocation p.allocation_id s.allocations ≡ some a)
    (after : IsWithin (with_row a.id (confirm p now) s)) where
  untouched :
      (x : Account)
      → Member x s.accounts
      → is_account x.id a.provider_account_id ≡ false
      → told x.status x.total_capacity
          (consumed x.id (update_where (λ y. y.id == a.id) (confirm p now) s.allocations))
        ≡ true
  unfolding confirm
  untouched x m other =
      rw (consumed-keep s p.allocation_id a (confirm p now) v held x.id (ground arith)) (
        All-Member (λ y. told y.status y.total_capacity (consumed y.id s.allocations) ≡ true)
          s.accounts x t m)

  pub confirmed-IsTold :
      IsTold (settle_account a.provider_account_id (with_row a.id (confirm p now) s))
  unfolding settle_account next_status
  confirmed-IsTold =
      let mid : Store = with_row a.id (confirm p now) s in
      elim (Option-cases a.provider_account_id) [
        | inl e ↦ rw e (All-of_Member _ s.accounts (λ x m. untouched x m (ground arith)))
        | inr (j, e) ↦ elim (Option-cases (find_account j s.accounts)) [
          | inl e2 ↦
              rw (e, settle_account, e2)
                (All-of_Member _ s.accounts (λ x m.
                  untouched x m
                    (ground (arith, find?-none-Member (λ y. y.id == j) s.accounts x e2 m))))
          | inr (acc, e2) ↦
              rw (e, settle_account, e2)
                (set_told mid acc
                  (next_status acc.status acc.total_capacity (
                    consumed acc.id
                      (update_where (λ y. y.id == a.id) (confirm p now) s.allocations)))
                  after (find?-Member (λ y. y.id == j) s.accounts e2) (ground arith)
                  (λ x m other.
                    untouched x m (ground (arith, find?-sound (λ y. y.id == j) s.accounts e2))))
        ]
      ]
