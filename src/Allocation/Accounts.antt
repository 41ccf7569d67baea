-- ===== src/Allocation/Accounts.antt =====
-- adminCreateProviderAccount and adminUpdateProviderAccount.
use d_n_i_p.Prelude.{
  ℕ, ℤ, pos, ◌-◌, Bool, true, false, not, ◌&&◌, Option, none, some, [], ◌∷◌, ◌++◌, ◌==◌, leb_ℤ,
  ltb_ℤ, find?, count_where, update_where, if◌then◌else◌, to_ℕ,
}
use d_n_i_p.Text.{Text, text_eq, trim}
use d_n_i_p.Json.{Fields}
use d_n_i_p.Tx.{Result, ok, err, Tx, ◌>>=◌, ◌>>◌, pure, gets, modify, check, found, transaction}
use d_n_i_p.Allocation.Model.{
  Allocation, Account, ProviderAccountStatus, Event, Store, AllocationError, is_running, is_account,
  consumed, find_account, write_audit, metadata_error, or_empty,
}

-- `total_capacity` is none for a number that is no integer.
pub record CreateParams : Type 0 where
  pub actor_id : ℕ
  pub provider_id : ℕ
  pub name : Text
  pub total_capacity : Option ℤ
  pub external_reference : Option Text
  pub status : Option ProviderAccountStatus
  pub metadata : Option Fields

pub record AccountAnswer : Type 0 where
  pub account : Account
  pub active_count : ℕ
  pub consumed_count : ℕ
  pub available_capacity : ℕ

abbrev is_suspended : Option ProviderAccountStatus → Bool
is_suspended (some ProviderAccountStatus.suspended) = true
is_suspended _ = false

abbrev is_exhausted : Option ProviderAccountStatus → Bool
is_exhausted (some ProviderAccountStatus.exhausted) = true
is_exhausted _ = false

abbrev pub is_blank : Text → Bool
unfolding trim
is_blank t = text_eq (trim t) []

-- `externalReference || null`
abbrev reference_or_null : Option Text → Option Text
reference_or_null (some []) = none
reference_or_null r = r

-- The checks before the transaction; the answer is the capacity.
unfoldable pub creation_check : CreateParams → Result AllocationError ℤ
unfolding trim text_eq
creation_check p = elim (metadata_error p.metadata) [
  | some e ↦ err e
  | none ↦ if is_blank p.name then err AllocationError.name_required else elim p.total_capacity [
    | none ↦ err AllocationError.capacity_not_positive
    | some n ↦
        if leb_ℤ n (pos 0)
        then err AllocationError.capacity_not_positive
        else if is_exhausted p.status
        then err AllocationError.created_exhausted
        else ok n
  ]
]

unfoldable pub new_account : CreateParams → ℤ → ℕ → Account
new_account p n new_id = record {
  id = new_id;
  provider_id = p.provider_id;
  name = trim p.name;
  external_reference = reference_or_null p.external_reference;
  total_capacity = n;
  status =
      if is_suspended p.status
      then ProviderAccountStatus.suspended
      else ProviderAccountStatus.active;
  metadata = or_empty p.metadata;
}

unfoldable pub create_account_tx : CreateParams → ℤ → ℕ → Tx Store AllocationError AccountAnswer
create_account_tx p n new_id = do
  row ← gets (λ s. find? (λ v. v.id == p.provider_id) s.providers)
  v ← found row AllocationError.provider_inactive
  check v.is_active AllocationError.provider_inactive
  modify (λ s. record s { accounts = s.accounts ++ new_account p n new_id ∷ [] })
  modify (
      write_audit new_id (some p.actor_id)
        (Event.account_created v.id (trim p.name) n (new_account p n new_id).status))
  pure (record {
    account = new_account p n new_id;
    active_count = 0;
    consumed_count = 0;
    available_capacity = to_ℕ n;
  })

-- adminCreateProviderAccount
unfoldable pub create_account :
    CreateParams → ℕ → Store → Result AllocationError AccountAnswer × Store
create_account p new_id s = elim (creation_check p) [
  | err e ↦ (err e, s)
  | ok n ↦ transaction (create_account_tx p n new_id) s
]

-- A field is none where the parameter is undefined.
pub record UpdateParams : Type 0 where
  pub provider_account_id : ℕ
  pub actor_id : ℕ
  pub name : Option Text
  pub total_capacity : Option ℤ
  pub external_reference : Option (Option Text)
  pub status : Option ProviderAccountStatus
  pub metadata : Option Fields

abbrev pub or_else : {A : Type 0} → Option A → A → A
or_else none d = d
or_else (some a) d = a

-- SUSPENDED is what an administrator says; the other two follow from the seats in use.
unfoldable pub resolved_status :
    ProviderAccountStatus → Option ProviderAccountStatus → ℤ → ℕ → ProviderAccountStatus
resolved_status current asked capacity used =
    if is_suspended asked
    then ProviderAccountStatus.suspended
    else if is_suspended (some current) && (elim asked [ none ↦ true | some x ↦ false ])
    then ProviderAccountStatus.suspended
    else if leb_ℤ capacity (pos used)
    then ProviderAccountStatus.exhausted
    else ProviderAccountStatus.active

unfoldable pub updated_account : UpdateParams → ProviderAccountStatus → Account → Account
updated_account p st a = record a {
  name = or_else p.name a.name;
  total_capacity = or_else p.total_capacity a.total_capacity;
  external_reference = or_else p.external_reference a.external_reference;
  status = st;
  metadata = or_else p.metadata a.metadata;
}

abbrev same_reference : Option Text → Option Text → Bool
same_reference none none = true
same_reference (some s) (some t) = text_eq s t
same_reference _ _ = false

abbrev pub reference_changed : Option (Option Text) → Option Text → Bool
reference_changed none old = false
reference_changed (some new) old = not (same_reference new old)

unfoldable pub active_on : ℕ → Allocation → Bool
active_on i a = is_account i a.provider_account_id && is_running a.status

unfoldable pub account_answer : Account → ℕ → ℕ → AccountAnswer
account_answer a active used = record {
  account = a;
  active_count = active;
  consumed_count = used;
  available_capacity = to_ℕ a.total_capacity - used;
}

unfoldable pub update_account_tx : UpdateParams → Tx Store AllocationError AccountAnswer
update_account_tx p = do
  row ← gets (λ s. find_account p.provider_account_id s.accounts)
  a ← found row AllocationError.account_not_found
  used ← gets (λ s. consumed a.id s.allocations)
  active ← gets (λ s. count_where (active_on a.id) s.allocations)
  let capacity = or_else p.total_capacity a.total_capacity
  check (not (ltb_ℤ capacity (pos used))) (AllocationError.capacity_below_consumed capacity used)
  let st = resolved_status a.status p.status capacity used
  modify (λ s. record s {
    accounts = update_where (λ x. x.id == a.id) (updated_account p st) s.accounts;
  })
  modify (
      write_audit a.id (some p.actor_id) (
        Event.account_updated (or_else p.name a.name) a.total_capacity capacity a.status st
          (reference_changed p.external_reference a.external_reference)))
  pure (account_answer (updated_account p st a) active used)

-- adminUpdateProviderAccount
unfoldable pub update_account : UpdateParams → Store → Result AllocationError AccountAnswer × Store
update_account p s = elim (metadata_error p.metadata) [
  | some e ↦ (err e, s)
  | none ↦ transaction (update_account_tx p) s
]
