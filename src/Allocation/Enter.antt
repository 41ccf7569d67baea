-- ===== src/Allocation/Enter.antt =====
-- The steps that take a seat keep the seats: an activation, and a request.
use d_n_i_p.Prelude.{
  ℕ, ℤ, pos, ◌+◌, ◌≤◌, ◌≡◌, refl, ◌≢◌, inl, inr, Bool, true, false, not, ◌&&◌, Option, none, some,
  [], ◌∷◌, ◌++◌, ◌==◌, arith, leb_ℤ, to_ℕ, find?, count_where, update_where, All, Member,
  Bool-cases, Option-cases,
}
use d_n_i_p.Prelude.Rows.{
  find?-Member, find?-none-Member, count-find?-none, count-append, count-update_one,
  count-update_one_le, count-All-false, Unique-update, Unique-append, Unique-same, All-of_Member,
  All-Member, All-map_pred,
}
use d_n_i_p.Text.{Text}
use d_n_i_p.Tx.{transaction_keeps}
use d_n_i_p.Entitlement.Model.{Entitlement, seats, find_entitlement}
use d_n_i_p.Allocation.Model.{
  Allocation, Account, ProviderAccountStatus, Provider, Event, Store, on_account, open_on, open_at,
  active_in, consumed, is_pending, find_allocation, find_account, metadata_error,
}
use d_n_i_p.Allocation.Requests.{
  RequestParams, new_allocation, open_seats, request_tx, request_allocation, code_or_default,
}
use d_n_i_p.Allocation.Review.{ActivateParams, start, activate_allocation, activate_allocation_tx}
use d_n_i_p.Allocation.Outcome.{with_row, fill, activate_allocation_tx_inv, request_tx_inv}
use d_n_i_p.Allocation.Seats.{IsWithin, write_audit-IsWithin, set_account_status-IsWithin}

fill-IsWithin : (acc : Account) (count : ℕ) (s : Store) → IsWithin s → IsWithin (fill acc count s)
fill-IsWithin acc count s v = elim (Bool-cases (leb_ℤ acc.total_capacity (pos (count + 1)))) [
  | inl e ↦ rw e (set_account_status-IsWithin acc.id ProviderAccountStatus.exhausted s v)
  | inr e ↦ rw e v
]

module _ (p : ActivateParams) (now : ℕ) (s : Store) (v : IsWithin s) (a : Allocation)
    (acc : Account) (held : find_allocation p.allocation_id s.allocations ≡ some a)
    (waiting : is_pending a.status ≡ true)
    (account : find_account p.provider_account_id s.accounts ≡ some acc)
    (room : leb_ℤ acc.total_capacity (pos (consumed acc.id s.allocations)) ≡ false)
    (free : find?
        (λ x. active_in a.provider_id a.normalized_domain x && not (x.id == a.id))
        s.allocations
      ≡ none) where
  started_le :
      (q : Allocation → Bool)
      → (q (start p acc now a) ≡ true → q a ≡ true)
      → count_where q (update_where (λ x. x.id == a.id) (start p acc now) s.allocations)
        ≤ count_where q s.allocations
  started_le q k =
      count-update_one_le Allocation.id q (λ x. x.id == p.allocation_id) (start p acc now)
        s.allocations a v.allocation_ids held k

  -- The row counts for one account alone, which has a seat left.
  account_within :
      (acc' : Account)
      → Member acc' s.accounts
      → consumed acc'.id (update_where (λ x. x.id == a.id) (start p acc now) s.allocations)
        ≤ to_ℕ acc'.total_capacity
  unfolding start
  account_within acc' m =
      let old =
        All-Member (λ x. consumed x.id s.allocations ≤ to_ℕ x.total_capacity) s.accounts acc'
          v.accounts_within m in
      elim (Bool-cases (acc.id == acc'.id)) [
        | inl same ↦
            let one : acc' ≡ acc =
              Unique-same Account.id s.accounts acc' acc v.account_ids m
                (find?-Member (λ x. x.id == p.provider_account_id) s.accounts account)
                (ground arith) in
            rw one (
              ground (
                arith,
                count-update_one Allocation.id (on_account acc.id) (λ x. x.id == p.allocation_id)
                    (start p acc now) s.allocations a v.allocation_ids held,
              ))
        | inr other ↦ omega (arith, old, started_le (on_account acc'.id) (λ k. ground arith))
      ]

  -- No row is active for the provider and the domain before.
  none_active : count_where (active_in a.provider_id a.normalized_domain) s.allocations ≡ 0
  none_active = count-All-false (active_in a.provider_id a.normalized_domain) s.allocations (
      All-of_Member _ s.allocations (λ x m. elim (Bool-cases (x.id == a.id)) [
        | inl same ↦
            let one : x ≡ a =
              Unique-same Allocation.id s.allocations x a v.allocation_ids m
                (find?-Member (λ y. y.id == p.allocation_id) s.allocations held) (ground arith) in
            rw one (ground arith)
        | inr other ↦ ground (
          arith,
          find?-none-Member
              (λ y. active_in a.provider_id a.normalized_domain y && not (y.id == a.id))
              s.allocations x free m,
        )
      ]))

  one_active_started :
      (i d : ℕ)
      → count_where
          (active_in i d)
          (update_where (λ x. x.id == a.id) (start p acc now) s.allocations)
        ≤ 1
  unfolding start
  one_active_started i d = elim (Bool-cases (a.provider_id == i && a.normalized_domain == d)) [
    | inl same ↦
        let (ei, ed) : (i ≡ a.provider_id) × (d ≡ a.normalized_domain) =
          (ground arith, ground arith) in
        rw (ei, ed)
          (ground (
            arith,
            none_active,
            count-update_one Allocation.id (active_in a.provider_id a.normalized_domain)
                (λ x. x.id == p.allocation_id) (start p acc now) s.allocations a v.allocation_ids
                held,
          ))
    | inr other ↦ omega (arith, v.one_active i d, started_le (active_in i d) (λ k. ground arith))
  ]

  pub with_row-start-IsWithin : IsWithin (with_row a.id (start p acc now) s)
  unfolding start
  with_row-start-IsWithin = record {
    allocation_ids =
        Unique-update Allocation.id (λ x. x.id == a.id) (start p acc now) s.allocations (λ x. refl)
          v.allocation_ids;
    account_ids = v.account_ids;
    entitlement_ids = v.entitlement_ids;
    accounts_within = All-of_Member _ s.accounts account_within;
    entitlements_within =
        All-map_pred _ _ s.entitlements
          (λ e h. omega (arith, started_le (open_on e.id) (λ k. ground arith)))
          v.entitlements_within;
    one_open = λ i d. omega (arith, started_le (open_at i d) (λ k. ground arith), v.one_open i d);
    one_active = one_active_started;
  }

pub activate_allocation-IsWithin :
    (p : ActivateParams) (now : ℕ) (s : Store)
    → IsWithin s
    → IsWithin (activate_allocation p now s).1
unfolding activate_allocation
activate_allocation-IsWithin p now s v = elim (Option-cases (metadata_error p.metadata)) [
  | inr (x, e) ↦ rw (e, activate_allocation) v
  | inl e ↦
      rw (e, activate_allocation)
        (transaction_keeps IsWithin (activate_allocation_tx p now) s v (λ r s' done.
          let (a, parent, acc, held, waiting, _, _, account, _, room, free, _, stored) =
            activate_allocation_tx_inv p now s r s' done in
          rw stored (
            write_audit-IsWithin a.id (some p.actor_id)
              (Event.activated a.entitlement_id acc.id a.normalized_domain p.notes)
              (fill acc (consumed acc.id s.allocations) (with_row a.id (start p acc now) s))
              (fill-IsWithin acc (consumed acc.id s.allocations) (with_row a.id (start p acc now) s)
                (with_row-start-IsWithin p now s v a acc held waiting account room free)))))
]

module _ (p : RequestParams) (e : Entitlement) (m : ℤ) (w : Provider) (domain new_id : ℕ)
    (s : Store) (v : IsWithin s) (held : find_entitlement p.entitlement_id s.entitlements ≡ some e)
    (seats_of : open_seats e.max_activations ≡ some m)
    (room : leb_ℤ m (pos (count_where (open_on e.id) s.allocations)) ≡ false)
    (free : find? (open_at e.id domain) s.allocations ≡ none)
    (fresh : All (λ a. a.id ≢ new_id) s.allocations) where
  request_step :
      (q : Allocation → Bool)
      → count_where q (s.allocations ++ new_allocation p e.id domain w new_id ∷ [])
        ≡ count_where q s.allocations + count_where q (new_allocation p e.id domain w new_id ∷ [])
  request_step q = count-append q s.allocations (new_allocation p e.id domain w new_id ∷ [])

  -- A PENDING row counts for its entitlement, which has a seat left, and for no account.
  entitlement_within :
      (e' : Entitlement)
      → Member e' s.entitlements
      → count_where (open_on e'.id) (s.allocations ++ new_allocation p e.id domain w new_id ∷ [])
        ≤ seats e'.max_activations
  unfolding new_allocation open_seats
  entitlement_within e' k =
      let old =
        All-Member (λ x. count_where (open_on x.id) s.allocations ≤ seats x.max_activations)
          s.entitlements e' v.entitlements_within k in
      elim (Bool-cases (e.id == e'.id)) [
        | inl same ↦
            let one : e' ≡ e =
              Unique-same Entitlement.id s.entitlements e' e v.entitlement_ids k
                (find?-Member (λ x. x.id == p.entitlement_id) s.entitlements held) (ground arith) in
            rw one (ground (arith, request_step (open_on e.id)))
        | inr other ↦ ground (arith, request_step (open_on e'.id))
      ]

  requested-IsWithin :
      IsWithin
        (record s { allocations = s.allocations ++ new_allocation p e.id domain w new_id ∷ [] })
  unfolding new_allocation
  requested-IsWithin = record {
    allocation_ids = Unique-append Allocation.id s.allocations _ v.allocation_ids fresh;
    account_ids = v.account_ids;
    entitlement_ids = v.entitlement_ids;
    accounts_within =
        All-map_pred _ _ s.accounts (λ acc h. ground (arith, request_step (on_account acc.id)))
          v.accounts_within;
    entitlements_within = All-of_Member _ s.entitlements entitlement_within;
    one_open = λ i d. ground (
      arith,
      request_step (open_at i d),
      v.one_open i d,
      count-find?-none (open_at e.id domain) s.allocations free,
    );
    one_active = λ i d. ground (arith, request_step (active_in i d), v.one_active i d);
  }

pub request_allocation-IsWithin :
    (normalize_domain : Text → Option ℕ) (p : RequestParams) (new_id now : ℕ) (s : Store)
    → IsWithin s
    → All (λ a. a.id ≢ new_id) s.allocations
    → IsWithin (request_allocation normalize_domain p new_id now s).1
unfolding request_allocation
request_allocation-IsWithin normalize_domain p new_id now s v fresh =
    elim (Option-cases (metadata_error p.metadata)) [
      | inr (x, e) ↦ rw (e, request_allocation) v
      | inl e ↦ elim (Option-cases (normalize_domain p.domain)) [
        | inl e2 ↦ rw (e, request_allocation, e2) v
        | inr (domain, e2) ↦
            rw (e, request_allocation, e2)
              (transaction_keeps IsWithin (request_tx p domain new_id now) s v (λ r s' done.
                let (e, m, w, held, _, seats_of, room, free, _, _, stored) =
                  request_tx_inv p domain new_id now s r s' done in
                rw stored (
                  write_audit-IsWithin new_id (some p.user_id)
                    (Event.requested e.id domain (code_or_default p.provider_code) w.id)
                    (record s {
                      allocations = s.allocations ++ new_allocation p e.id domain w new_id ∷ [];
                    })
                    (requested-IsWithin p e m w domain new_id s v held seats_of room free fresh))))
      ]
    ]
