-- ===== src/Allocation/Examples.antt =====
-- The allocation engine at concrete tables: one right with three seats, and an allocation that
-- waits, one that is being given up and one that was turned down. The theorems are applied here.
use d_n_i_p.Prelude.{◌≡◌, refl, ◌↔◌, true, none, some, [], ◌∷◌, arith, pos, length}
use d_n_i_p.Text.{codes}
use d_n_i_p.Json.{Json, Items, Fields, assert_safe}
use d_n_i_p.Json.Secrets.{NoSecret, assert_safe_iff}
use d_n_i_p.Tx.{ok, transaction}
use d_n_i_p.Entitlement.Model.{Entitlement, EntitlementStatus, FulfillmentType}
use d_n_i_p.Allocation.Model.{
  Allocation, AllocationStatus, Account, ProviderAccountStatus, Provider, Store, find_allocation,
  metadata_error,
}
use d_n_i_p.Allocation.Requests.{
  RequestParams, request_allocation, request_tx, room_for, new_allocation, entitlement_error,
  open_seats,
}
use d_n_i_p.Allocation.Review.{
  ActivateParams, activate_allocation, activate_allocation_tx, start_tx, start, parent_error,
  account_error,
}
use d_n_i_p.Allocation.Seats.{IsWithin}
use d_n_i_p.Allocation.Statuses.{IsTold}
use d_n_i_p.Allocation.Truth.{History-IsTold}
use d_n_i_p.Allocation.Granted.{
  IsRequested, IsStarted, request_allocation-granted, activate_allocation-granted,
}
use d_n_i_p.Allocation.Secrets.{IsClean}
use d_n_i_p.Allocation.Clean.{History-IsClean}
use d_n_i_p.Allocation.Lifecycle.{Leads}
use d_n_i_p.Allocation.Endings.{History-Led, History-closed}
use d_n_i_p.Allocation.Calls.{Env, Call, step, History, History-IsWithin}

abbrev env : Env
env = record { normalize_domain = λ t. some (length t); iso = λ t. t ∷ [] }

abbrev right : Entitlement
right = record {
  id = 1;
  user_id = 7;
  order_id = 2;
  order_item_id = 3;
  product_id = 4;
  variant_id = 5;
  fulfillment_type = FulfillmentType.external_managed;
  status = EntitlementStatus.active;
  quantity = 1;
  activated_at = 0;
  expires_at = some 100;
  max_activations = some (pos 3);
  updates_until = none;
  support_until = none;
}

abbrev provider : Provider
provider = record { id = 31; code = "ELEMENTOR"; is_active = true }

abbrev account : Account
account = record {
  id = 41;
  provider_id = 31;
  name = codes "pool";
  external_reference = none;
  total_capacity = pos 1;
  status = ProviderAccountStatus.active;
  metadata = Fields.end;
}

abbrev full_account : Account
full_account = record account { id = 42; status = ProviderAccountStatus.exhausted }

abbrev waiting : Allocation
waiting = record {
  id = 51;
  entitlement_id = 1;
  provider_id = 31;
  provider_account_id = none;
  user_id = 7;
  normalized_domain = 5;
  status = AllocationStatus.pending;
  activated_at = none;
  deactivated_at = none;
  metadata = Fields.end;
}

abbrev going : Allocation
going = record waiting {
  id = 52;
  provider_account_id = some 42;
  normalized_domain = 6;
  status = AllocationStatus.deactivation_pending;
}

abbrev turned_down : Allocation
turned_down = record waiting { id = 53; normalized_domain = 7; status = AllocationStatus.rejected }

abbrev tables : Store
tables = record {
  entitlements = right ∷ [];
  providers = provider ∷ [];
  accounts = account ∷ full_account ∷ [];
  allocations = waiting ∷ going ∷ turned_down ∷ [];
  audit_rows = [];
}

tables-IsWithin : IsWithin tables
tables-IsWithin = record {
  allocation_ids = ground arith;
  account_ids = ground arith;
  entitlement_ids = (tt, tt);
  accounts_within = (omega arith, (omega arith, tt));
  entitlements_within = (omega arith, tt);
  one_open = λ i d. ground arith;
  one_active = λ i d. ground arith;
}

tables-IsTold : IsTold tables
tables-IsTold = (refl, (refl, tt))

tables-IsClean : IsClean tables
unfolding NoSecret
tables-IsClean = ((tt, (tt, (tt, tt))), (tt, (tt, tt)))

abbrev activation : ActivateParams
activation = record {
  allocation_id = 51;
  provider_account_id = 41;
  actor_id = 9;
  notes = some (codes "done by hand");
  metadata = none;
}

abbrev call : Call
call = Call.activates activation 10

abbrev history : History env tables (step env call tables)
history = History.next call History.here tt refl

History-IsWithin_example : IsWithin (step env call tables)
History-IsWithin_example =
    History-IsWithin env tables (step env call tables) tables-IsWithin history

History-IsTold_example : IsTold (step env call tables)
History-IsTold_example =
    History-IsTold env tables (step env call tables) tables-IsWithin tables-IsTold history

History-Led_example :
    (b : Allocation) × (find_allocation 51 (step env call tables).allocations ≡ some b)
    × Leads waiting b
History-Led_example =
    History-Led env tables (step env call tables) 51 waiting tables-IsWithin refl history

History-closed_example : find_allocation 53 (step env call tables).allocations ≡ some turned_down
History-closed_example =
    History-closed env tables (step env call tables) 53 turned_down tables-IsWithin refl refl
      history

History-IsClean_example : IsClean (step env call tables)
History-IsClean_example = History-IsClean env tables (step env call tables) tables-IsClean history

started : (activate_allocation activation 10 tables).0 ≡ ok (start activation account 10 waiting)
unfolding activate_allocation activate_allocation_tx start_tx start parent_error open_seats
    account_error metadata_error transaction
started = refl

activate_allocation-granted_example :
    IsStarted activation 10 tables
      (start activation account 10 waiting)
      (activate_allocation activation 10 tables).1
activate_allocation-granted_example =
    activate_allocation-granted activation 10 tables (start activation account 10 waiting) started

abbrev request : RequestParams
request = record {
  entitlement_id = 1;
  user_id = 7;
  domain = codes "x.org";
  provider_code = none;
  metadata = none;
}

abbrev other_request : RequestParams
other_request = record request { domain = codes "example.org" }

granted :
    (request_allocation env.normalize_domain other_request 54 10 tables).0
    ≡ ok (new_allocation other_request 1 11 provider 54)
unfolding request_allocation request_tx room_for entitlement_error open_seats new_allocation
    metadata_error transaction
granted = refl

request_allocation-granted_example :
    IsRequested env.normalize_domain other_request 54 10 tables
      (new_allocation other_request 1 11 provider 54)
      (request_allocation env.normalize_domain other_request 54 10 tables).1
request_allocation-granted_example =
    request_allocation-granted env.normalize_domain other_request 54 10 tables
      (new_allocation other_request 1 11 provider 54) granted

abbrev nested : Json
nested = Json.object (
    Fields.field (codes "notes")
      (Json.array
        (Items.cons (Json.object (Fields.field (codes "api_key") Json.null Fields.end)) Items.nil))
      Fields.end)

assert_safe_iff_example : (assert_safe nested [] ≡ none) ↔ NoSecret nested
assert_safe_iff_example = assert_safe_iff nested []
