-- ===== src/Allocation/Granted.antt =====
-- What a request and an activation that the engine has granted have found and done
-- (packages/database/src/domain/allocation-engine.ts).
use text.Mathlib.Text.{◌==◌ as str_eq}
use Prim.Native.String.{String}
use d_n_i_p.Prelude.{
  ℕ, ℤ, pos, negsuc, ◌<◌, ◌≡◌, ◌≢◌, ◌∙◌, refl, sym, subst, ap, inl, inr, true, false, Option, none,
  some, List, [], ◌∷◌, ◌++◌, ◌==◌, arith, find?, update_where, count_where, leb_ℤ, Bool-cases,
  Option-cases,
}
use d_n_i_p.Prelude.Rows.{find?-update, find?-sound}
use d_n_i_p.Text.{Text}
use d_n_i_p.Tx.{ok, transaction, transaction-eq-ok}
use d_n_i_p.Entitlement.Model.{
  Entitlement, EntitlementStatus, FulfillmentType, find_entitlement, seats, is_past,
}
use d_n_i_p.Allocation.Model.{
  Allocation, AllocationStatus, Account, ProviderAccountStatus, Store, Provider, open_on, open_at,
  active_in, consumed, find_account, find_allocation, metadata_error, is_pending,
}
use d_n_i_p.Allocation.Requests.{
  RequestParams, new_allocation, request_tx, request_allocation, entitlement_error, open_seats,
  room_for, code_or_default, is_before,
}
use d_n_i_p.Allocation.Review.{
  ActivateParams, start, activate_allocation_tx, activate_allocation, parent_error, account_error,
}
use d_n_i_p.Allocation.Outcome.{request_tx_inv, activate_allocation_tx_inv, Result-cases, with_row}
use d_n_i_p.Allocation.Lifecycle.{fill_allocations}

open_seats-room :
    (o : Option ℤ) (m : ℤ) (n : ℕ) → open_seats o ≡ some m → leb_ℤ m (pos n) ≡ false → n < seats o
unfolding open_seats
open_seats-room none m n h k = cc
open_seats-room (some (pos x)) m n h k = ground arith
open_seats-room (some (negsuc x)) m n h k = ground arith

-- The provider of a request that has room.
room_for-provider :
    (eid domain : ℕ) (m : ℤ) (code : String) (vs : List Provider) (allocs : List Allocation)
    (v : Provider)
    → room_for eid domain m code vs allocs ≡ ok v
    → (find? (λ x. str_eq x.code code) vs ≡ some v) × (v.is_active ≡ true)
unfolding room_for
room_for-provider eid domain m code vs allocs v h =
    elim (Bool-cases (leb_ℤ m (pos (count_where (open_on eid) allocs)))) [
      | inl e1 ↦ absurd (ground arith)
      | inr e1 ↦ elim (Option-cases (find? (open_at eid domain) allocs)) [
        | inr (a, e2) ↦ absurd (ground arith)
        | inl e2 ↦ elim (Option-cases (find? (λ x. str_eq x.code code) vs)) [
          | inl e3 ↦ absurd (ground arith)
          | inr (w, e3) ↦ elim (Option-cases (find? (active_in w.id domain) allocs)) [
            | inr (x, e4) ↦ absurd (ground arith)
            | inl e4 ↦ elim (Bool-cases w.is_active) [
              | inr e5 ↦ absurd (ground arith)
              | inl e5 ↦ (ground arith, ground arith)
            ]
          ]
        ]
      ]
    ]

entitlement_error-none :
    (e : Entitlement) (u now : ℕ)
    → entitlement_error e u now ≡ none
    → (e.user_id ≡ u)
      × (e.status ≡ EntitlementStatus.active)
      × (is_before now e.expires_at ≡ false)
      × (e.fulfillment_type ≡ FulfillmentType.external_managed)
unfolding entitlement_error
entitlement_error-none e u now h = (ground arith, ground arith, ground arith, ground arith)

parent_error-none :
    (e : Entitlement) (now : ℕ)
    → parent_error e now ≡ none
    → (e.status ≡ EntitlementStatus.active)
      × (is_past now e.expires_at ≡ false)
      × (e.fulfillment_type ≡ FulfillmentType.external_managed)
unfolding parent_error
parent_error-none e now h = (ground arith, ground arith, ground arith)

account_error-none :
    (acc : Account) (a : Allocation)
    → account_error acc a ≡ none
    → (acc.status ≡ ProviderAccountStatus.active) × (acc.provider_id ≡ a.provider_id)
unfolding account_error
account_error-none acc a h = (ground arith, ground arith)

request_tx-provider :
    (p : RequestParams) (domain new_id now : ℕ) (s : Store) (a : Allocation) (s' : Store)
    → request_tx p domain new_id now s ≡ ok (a, s')
    → (w : Provider) × (find? (λ x. str_eq x.code (code_or_default p.provider_code)) s.providers
        ≡ some w)
      × (w.is_active ≡ true)
      × (a.provider_id ≡ w.id)
unfolding request_tx new_allocation
request_tx-provider p domain new_id now s a s' h =
    let code = code_or_default p.provider_code in
    let (e, m, _, e1, e2, e3, _, _, _, _, _) = request_tx_inv p domain new_id now s a s' h in
    elim (Result-cases (room_for e.id domain m code s.providers s.allocations)) [
      | inr (x, e4) ↦ absurd (ground arith)
      | inl (v, e4) ↦
          let (listed, active) =
            room_for-provider e.id domain m code s.providers s.allocations v e4 in
          (v, listed, active, ground arith)
    ]

-- What holds of a request that is granted.
abbrev pub IsRequested :
    (Text → Option ℕ) → RequestParams → ℕ → ℕ → Store → Allocation → Store → Type 0
IsRequested normalize_domain p new_id now s a s' =
    (e : Entitlement) × (w : Provider) × (find_entitlement p.entitlement_id s.entitlements ≡ some e)
    × (e.user_id ≡ p.user_id)
    × (e.status ≡ EntitlementStatus.active)
    × (is_before now e.expires_at ≡ false)
    × (e.fulfillment_type ≡ FulfillmentType.external_managed)
    × (count_where (open_on e.id) s.allocations < seats e.max_activations)
    × (normalize_domain p.domain ≡ some a.normalized_domain)
    × (find? (open_at e.id a.normalized_domain) s.allocations ≡ none)
    × (find? (λ x. str_eq x.code (code_or_default p.provider_code)) s.providers ≡ some w)
    × (w.is_active ≡ true)
    × (find? (active_in a.provider_id a.normalized_domain) s.allocations ≡ none)
    × (a.id ≡ new_id)
    × (a.entitlement_id ≡ e.id)
    × (a.user_id ≡ p.user_id)
    × (a.provider_id ≡ w.id)
    × (a.provider_account_id ≡ none)
    × (a.status ≡ AllocationStatus.pending)
    × (s'.allocations ≡ s.allocations ++ a ∷ [])

request_tx-IsRequested :
    (normalize_domain : Text → Option ℕ) (p : RequestParams) (domain new_id now : ℕ) (s : Store)
    (a : Allocation) (s' : Store)
    → normalize_domain p.domain ≡ some domain
    → request_tx p domain new_id now s ≡ ok (a, s')
    → IsRequested normalize_domain p new_id now s a s'
unfolding new_allocation
request_tx-IsRequested normalize_domain p domain new_id now s a s' valid ran =
    let (e, m, v, e1, e2, e3, e4, e5, e6, made, done) =
      request_tx_inv p domain new_id now s a s' ran in
    let (w, listed, on, same) = request_tx-provider p domain new_id now s a s' ran in
    let (owned, active, current, external) = entitlement_error-none e p.user_id now e2 in
    let asked : domain ≡ a.normalized_domain = sym (ap Allocation.normalized_domain made) in
    let of_provider : v.id ≡ a.provider_id = sym (ap Allocation.provider_id made) in
    (
      e,
      w,
      e1,
      owned,
      active,
      current,
      external,
      open_seats-room e.max_activations m (count_where (open_on e.id) s.allocations) e3 e4,
      valid ∙ ap (λ d. some d) asked,
      subst (λ d. find? (open_at e.id d) s.allocations ≡ none) asked e5,
      listed,
      on,
      subst (λ d. find? (active_in a.provider_id d) s.allocations ≡ none) asked
          (subst (λ i. find? (active_in i domain) s.allocations ≡ none) of_provider e6),
      ap Allocation.id made,
      ap Allocation.entitlement_id made,
      ap Allocation.user_id made,
      same,
      ap Allocation.provider_account_id made,
      ap Allocation.status made,
      ap Store.allocations done ∙ ap (λ x. s.allocations ++ x ∷ []) (sym made),
    )

-- A request that is granted has a right that is the user's own, ACTIVE, not past its end,
-- external and with a seat free, for a domain that is valid, that no open allocation of the right
-- has and no active one at the provider, which is the one that is asked for and is active. It has
-- added one allocation and has changed no other: PENDING, under the new id, of this right, user,
-- provider and domain, on no account.
pub request_allocation-granted :
    (normalize_domain : Text → Option ℕ) (p : RequestParams) (new_id now : ℕ) (s : Store)
    (a : Allocation)
    → (request_allocation normalize_domain p new_id now s).0 ≡ ok a
    → IsRequested normalize_domain p new_id now s a
        (request_allocation normalize_domain p new_id now s).1
unfolding request_allocation
request_allocation-granted normalize_domain p new_id now s a h =
    elim (Option-cases (metadata_error p.metadata)) [
      | inr (x, bad) ↦ absurd (ground arith)
      | inl safe ↦ elim (Option-cases (normalize_domain p.domain)) [
        | inl bad ↦ absurd (ground arith)
        | inr (domain, valid) ↦
            let run : request_allocation normalize_domain p new_id now s
                ≡ transaction (request_tx p domain new_id now) s =
              rw (safe, valid, request_allocation) refl in
            let (s', ran, stored) =
              transaction-eq-ok (request_tx p domain new_id now) s a
                (sym (ap (λ x. x.0) run) ∙ h) in
            subst (IsRequested normalize_domain p new_id now s a) (sym (ap (λ x. x.1) run ∙ stored))
              (request_tx-IsRequested normalize_domain p domain new_id now s a s' valid ran)
      ]
    ]

-- What holds of an activation that goes through.
abbrev pub IsStarted : ActivateParams → ℕ → Store → Allocation → Store → Type 0
IsStarted p now s r s' =
    (a : Allocation) × (e : Entitlement) × (acc : Account) × (find_allocation p.allocation_id
        s.allocations
      ≡ some a)
    × (is_pending a.status ≡ true)
    × (find_entitlement a.entitlement_id s.entitlements ≡ some e)
    × (e.status ≡ EntitlementStatus.active)
    × (is_past now e.expires_at ≡ false)
    × (e.fulfillment_type ≡ FulfillmentType.external_managed)
    × (find_account p.provider_account_id s.accounts ≡ some acc)
    × (acc.status ≡ ProviderAccountStatus.active)
    × (acc.provider_id ≡ a.provider_id)
    × (leb_ℤ acc.total_capacity (pos (consumed acc.id s.allocations)) ≡ false)
    × (r.status ≡ AllocationStatus.active)
    × (r.provider_account_id ≡ some acc.id)
    × (r.activated_at ≡ some now)
    × (r.entitlement_id ≡ a.entitlement_id)
    × (r.user_id ≡ a.user_id)
    × (r.provider_id ≡ a.provider_id)
    × (r.normalized_domain ≡ a.normalized_domain)
    × (find_allocation p.allocation_id s'.allocations ≡ some r)
    × ((j : ℕ)
        → j ≢ p.allocation_id
        → find_allocation j s'.allocations ≡ find_allocation j s.allocations)

-- The rows after an update of the row that was found.
found-updated :
    (i : ℕ) (g : Allocation → Allocation) (rows : List Allocation) (a : Allocation)
    → ((x : Allocation) → (g x).id ≡ x.id)
    → find_allocation i rows ≡ some a
    → find_allocation i (update_where (λ x. x.id == a.id) g rows) ≡ some (g a)
found-updated i g rows a k h =
    find?-update (λ x. x.id == i) (λ x. x.id == a.id) g rows (λ x _. rw (k x) refl)
    ∙ rw h (ground arith)

others-updated :
    (i j : ℕ) (g : Allocation → Allocation) (rows : List Allocation) (a : Allocation)
    → ((x : Allocation) → (g x).id ≡ x.id)
    → find_allocation i rows ≡ some a
    → j ≢ i
    → find_allocation j (update_where (λ x. x.id == a.id) g rows) ≡ find_allocation j rows
others-updated i j g rows a k h other =
    let at_a : (a.id == i) ≡ true = find?-sound (λ x. x.id == i) rows h in
    find?-update (λ x. x.id == j) (λ x. x.id == a.id) g rows (λ x _. rw (k x) refl)
    ∙ elim (Option-cases (find_allocation j rows)) [
      | inl e ↦ rw e refl
      | inr (x, e) ↦
          let at_x : (x.id == j) ≡ true = find?-sound (λ y. y.id == j) rows e in
          let apart : (x.id == a.id) ≡ false = ground arith in rw e (rw apart refl)
    ]

activate_tx-IsStarted :
    (p : ActivateParams) (now : ℕ) (s : Store) (r : Allocation) (s' : Store)
    → activate_allocation_tx p now s ≡ ok (r, s')
    → IsStarted p now s r s'
unfolding start
activate_tx-IsStarted p now s r s' ran =
    let (a, e, acc, e1, e2, e3, e4, e5, e6, e7, e8, made, done) =
      activate_allocation_tx_inv p now s r s' ran in
    let (active, current, external) = parent_error-none e now e4 in
    let (on, of_provider) = account_error-none acc a e6 in
    let rows : s'.allocations ≡ update_where (λ x. x.id == a.id) (start p acc now) s.allocations =
      ap Store.allocations done
      ∙ fill_allocations acc (consumed acc.id s.allocations) (with_row a.id (start p acc now) s) in
    (
      a,
      e,
      acc,
      e1,
      e2,
      e3,
      active,
      current,
      external,
      e5,
      on,
      of_provider,
      e7,
      ap Allocation.status made,
      ap Allocation.provider_account_id made,
      ap Allocation.activated_at made,
      ap Allocation.entitlement_id made,
      ap Allocation.user_id made,
      ap Allocation.provider_id made,
      ap Allocation.normalized_domain made,
      ap (find_allocation p.allocation_id) rows
          ∙ found-updated p.allocation_id (start p acc now) s.allocations a (λ x. refl) e1
          ∙ ap (λ x. some x) (sym made),
      λ j other.
          ap (find_allocation j) rows
          ∙ others-updated p.allocation_id j (start p acc now) s.allocations a (λ x. refl) e1 other,
    )

-- An activation that goes through is of a PENDING allocation whose right is ACTIVE, not past its
-- end and external, on an account that is ACTIVE, of the allocation's provider and not full. It
-- has made the allocation ACTIVE on that account from this time on, with its right, user, provider
-- and domain as they were, and it has changed no other allocation.
pub activate_allocation-granted :
    (p : ActivateParams) (now : ℕ) (s : Store) (r : Allocation)
    → (activate_allocation p now s).0 ≡ ok r
    → IsStarted p now s r (activate_allocation p now s).1
unfolding activate_allocation
activate_allocation-granted p now s r h = elim (Option-cases (metadata_error p.metadata)) [
  | inr (x, bad) ↦ absurd (ground arith)
  | inl safe ↦
      let run : activate_allocation p now s ≡ transaction (activate_allocation_tx p now) s =
        rw (safe, activate_allocation) refl in
      let (s', ran, stored) =
        transaction-eq-ok (activate_allocation_tx p now) s r (sym (ap (λ x. x.0) run) ∙ h) in
      subst (IsStarted p now s r) (sym (ap (λ x. x.1) run ∙ stored))
        (activate_tx-IsStarted p now s r s' ran)
]
