-- ===== src/Allocation/Capacity.antt =====
-- An administrator who creates or changes a provider account keeps the seats.
use d_n_i_p.Prelude.{
  ℕ, ℤ, pos, ◌≡◌, refl, ◌≢◌, inl, inr, false, some, [], ◌∷◌, ◌++◌, ◌==◌, arith, ltb_ℤ, find?,
  update_where, All, Member, Bool-cases, Option-cases,
}
use d_n_i_p.Prelude.Rows.{
  find?-Member, count-All-false, Unique-update, Unique-append, Unique-same, All-map_pred,
  All-append, All-updated,
}
use d_n_i_p.Text.{trim}
use d_n_i_p.Tx.{transaction_keeps}
use d_n_i_p.Allocation.Model.{
  Account, ProviderAccountStatus, Event, Store, is_account, on_account, consumed, write_audit,
  find_account, metadata_error,
}
use d_n_i_p.Allocation.Accounts.{
  CreateParams, creation_check, new_account, create_account_tx, create_account, UpdateParams,
  resolved_status, updated_account, update_account_tx, update_account, or_else, reference_changed,
}
use d_n_i_p.Allocation.Outcome.{Result-cases}
use d_n_i_p.Allocation.Seats.{IsWithin, write_audit-IsWithin}

-- No row refers to an account that is yet to be created.
abbrev pub NoRow : ℕ → Store → Type 0
NoRow i s =
    All (λ a. a.id ≢ i) s.accounts
    × All (λ a. is_account i a.provider_account_id ≡ false) s.allocations

created-IsWithin :
    (p : CreateParams) (n : ℤ) (new_id : ℕ) (s : Store)
    → IsWithin s
    → NoRow new_id s
    → IsWithin (record s { accounts = s.accounts ++ new_account p n new_id ∷ [] })
unfolding new_account
created-IsWithin p n new_id s v (fresh, unused) =
    let none_on =
      count-All-false (on_account new_id) s.allocations
        (All-map_pred _ _ s.allocations (λ a h. ground arith) unused) in
    record {
      allocation_ids = v.allocation_ids;
      account_ids = Unique-append Account.id s.accounts _ v.account_ids fresh;
      entitlement_ids = v.entitlement_ids;
      accounts_within = All-append _ s.accounts _ v.accounts_within (omega (arith, none_on));
      entitlements_within = v.entitlements_within;
      one_open = v.one_open;
      one_active = v.one_active;
    }

pub create_account-IsWithin :
    (p : CreateParams) (new_id : ℕ) (s : Store)
    → IsWithin s
    → NoRow new_id s
    → IsWithin (create_account p new_id s).1
unfolding create_account create_account_tx
create_account-IsWithin p new_id s v unused = elim (Result-cases (creation_check p)) [
  | inr (x, e) ↦ rw (e, create_account) v
  | inl (n, e) ↦
      rw (e, create_account)
        (transaction_keeps IsWithin (create_account_tx p n new_id) s v (λ r s' done.
          elim (Option-cases (find? (λ w. w.id == p.provider_id) s.providers)) [
            | inl e1 ↦ absurd (ground arith)
            | inr (w, e1) ↦ elim (Bool-cases w.is_active) [
              | inr e2 ↦ absurd (ground arith)
              | inl e2 ↦
                  let made : Store = record s {
                    accounts = s.accounts ++ new_account p n new_id ∷ [];
                  } in
                  let event : Event =
                    Event.account_created w.id (trim p.name) n (new_account p n new_id).status in
                  let same : s' ≡ write_audit new_id (some p.actor_id) event made = ground arith in
                  rw same (
                    write_audit-IsWithin new_id (some p.actor_id) event made
                      (created-IsWithin p n new_id s v unused))
            ]
          ]))
]

updated-IsWithin :
    (p : UpdateParams) (st : ProviderAccountStatus) (a : Account) (s : Store)
    → IsWithin s
    → Member a s.accounts
    → ltb_ℤ (or_else p.total_capacity a.total_capacity) (pos (consumed a.id s.allocations)) ≡ false
    → IsWithin
        (record s { accounts = update_where (λ x. x.id == a.id) (updated_account p st) s.accounts })
unfolding updated_account
updated-IsWithin p st a s v held enough = record {
  allocation_ids = v.allocation_ids;
  account_ids =
      Unique-update Account.id (λ x. x.id == a.id) (updated_account p st) s.accounts (λ x. refl)
        v.account_ids;
  entitlement_ids = v.entitlement_ids;
  accounts_within =
      All-updated _ (λ x. x.id == a.id) (updated_account p st) s.accounts v.accounts_within
        (λ x m same h.
          let one : x ≡ a =
            Unique-same Account.id s.accounts x a v.account_ids m held (ground arith) in
          rw one (ground (arith, enough)));
  entitlements_within = v.entitlements_within;
  one_open = v.one_open;
  one_active = v.one_active;
}

pub update_account-IsWithin :
    (p : UpdateParams) (s : Store) → IsWithin s → IsWithin (update_account p s).1
unfolding update_account update_account_tx
update_account-IsWithin p s v = elim (Option-cases (metadata_error p.metadata)) [
  | inr (x, e) ↦ rw (e, update_account) v
  | inl e ↦
      rw (e, update_account)
        (transaction_keeps IsWithin (update_account_tx p) s v (λ r s' done.
          elim (Option-cases (find_account p.provider_account_id s.accounts)) [
            | inl e1 ↦ absurd (ground arith)
            | inr (a, e1) ↦
                let used = consumed a.id s.allocations in
                let capacity = or_else p.total_capacity a.total_capacity in
                elim (Bool-cases (ltb_ℤ capacity (pos used))) [
                  | inl e2 ↦ absurd (ground arith)
                  | inr e2 ↦
                      let st = resolved_status a.status p.status capacity used in
                      let made : Store = record s {
                        accounts =
                            update_where (λ x. x.id == a.id) (updated_account p st) s.accounts;
                      } in
                      let event : Event =
                        Event.account_updated (or_else p.name a.name) a.total_capacity capacity
                          a.status st
                          (reference_changed p.external_reference a.external_reference) in
                      let same : s' ≡ write_audit a.id (some p.actor_id) event made =
                        ground arith in
                      rw same (
                        write_audit-IsWithin a.id (some p.actor_id) event made (
                          updated-IsWithin p st a s v
                            (find?-Member (λ x. x.id == p.provider_account_id) s.accounts e1) e2))
                ]
          ]))
]
