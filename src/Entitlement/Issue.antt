-- ===== src/Entitlement/Issue.antt =====
-- issueEntitlementsForOrder (packages/database/src/domain/entitlement-engine.ts).
use d_n_i_p.Prelude.{
  ℕ, ℤ, Bool, true, false, Option, none, some, List, [], ◌∷◌, ◌++◌, ◌==◌, find?, is_some,
  if◌then◌else◌,
}
use d_n_i_p.Tx.{Result, ok, err, Tx, ◌>>=◌, ◌>>◌, pure, gets, modify, check, found, transaction}
use d_n_i_p.Entitlement.Model.{Entitlement, EntitlementStatus}
use d_n_i_p.Entitlement.Policy.{
  OrderItem, OrderStatus, IssueError, ItemDates, item_dates, snapshot_error,
}

pub record Order : Type 0 where
  pub id : ℕ
  pub user_id : ℕ
  pub status : OrderStatus
  pub items : List OrderItem

-- The audit rows, with what the details tell.
pub data Event : Type 0 where
  created : (e : Entitlement) (is_lifetime : Bool) (plan : Option ℕ) (version : Option ℤ) → Event
  expired : (worker_id order_id order_item_id user_id : ℕ) → Event

pub record AuditRow : Type 0 where
  pub entity_id : ℕ
  pub event : Event

pub record Store : Type 0 where
  pub orders : List Order
  pub entitlements : List Entitlement
  pub audit_rows : List AuditRow

-- What a run meets by item: the id that it draws, the time, and the row for the item that
-- another transaction commits between the look-up and the insert, if one does.
pub record Draws : Type 0 where
  pub new_id : ℕ → ℕ
  pub now : ℕ → ℕ
  pub rival : ℕ → Option Entitlement

abbrev pub find_by_item : ℕ → List Entitlement → Option Entitlement
find_by_item i = find? (λ e. e.order_item_id == i)

unfoldable pub new_entitlement : Order → OrderItem → ℕ → ℕ → ItemDates → Entitlement
new_entitlement o i new_id now d = record {
  id = new_id;
  user_id = o.user_id;
  order_id = o.id;
  order_item_id = i.id;
  product_id = i.product_id;
  variant_id = i.variant_id;
  fulfillment_type = i.fulfillment_type;
  status = EntitlementStatus.active;
  quantity = i.quantity;
  activated_at = now;
  expires_at = d.expires_at;
  max_activations = i.max_activations;
  updates_until = d.updates_until;
  support_until = d.support_until;
}

-- The rival's commit, which the unique index on the item lets through only for a free item. If
-- the run throws later, its rollback takes the model back to a store without the rival's row,
-- which the database would keep.
unfoldable pub commit_rival : ℕ → Option Entitlement → List Entitlement → List Entitlement
commit_rival i none es = es
commit_rival i (some e) es = if e.order_item_id == i then es ++ e ∷ [] else es

-- `ON CONFLICT ("order_item_id") DO NOTHING`, with the audit row of an insert.
unfoldable pub insert_row : Order → OrderItem → ℕ → ℕ → ItemDates → Store → Store
insert_row o i new_id now d s =
    if is_some (find_by_item i.id s.entitlements)
    then s
    else let e = new_entitlement o i new_id now d in
      record s {
        entitlements = s.entitlements ++ e ∷ [];
        audit_rows =
            s.audit_rows
            ++ record {
              entity_id = new_id;
              event =
                  Event.created e i.is_lifetime i.license_plan_id_at_purchase i.snapshot_version;
            }
              ∷ [];
      }

abbrev pub to_list : Option Entitlement → List Entitlement
to_list none = []
to_list (some e) = e ∷ []

abbrev pub raise : Option IssueError → Tx Store IssueError (Unit {0})
raise none s = ok (tt, s)
raise (some e) s = err e

-- The driver refuses an Invalid Date among the values of the INSERT, so the issue throws.
unfoldable pub create_item : Draws → Order → OrderItem → Tx Store IssueError (List Entitlement)
create_item w o i = do
  raise (snapshot_error i)
  d ← found (item_dates (w.now i.id) i) (IssueError.invalid_date i.id)
  modify (λ s. record s { entitlements = commit_rival i.id (w.rival i.id) s.entitlements })
  modify (insert_row o i (w.new_id i.id) (w.now i.id) d)
  row ← gets (λ s. find_by_item i.id s.entitlements)
  pure (to_list row)

unfoldable pub issue_item : Draws → Order → OrderItem → Tx Store IssueError (List Entitlement)
issue_item w o i s = elim (find_by_item i.id s.entitlements) [
  | some e ↦ ok (e ∷ [], s)
  | none ↦ create_item w o i s
]

-- `for (const item of order.items)`
unfoldable pub issue_items : Draws → Order → List OrderItem → Tx Store IssueError (List Entitlement)
issue_items w o [] = pure []
issue_items w o (i ∷ is) = do es ← issue_item w o i; rest ← issue_items w o is; pure (es ++ rest)

abbrev pub is_paid : OrderStatus → Bool
is_paid OrderStatus.paid = true
is_paid _ = false

unfoldable pub issue_tx : Draws → ℕ → Tx Store IssueError (List Entitlement)
issue_tx w order_id = do
  row ← gets (λ s. find? (λ o. o.id == order_id) s.orders)
  o ← found row (IssueError.order_not_found order_id)
  check (is_paid o.status) (IssueError.order_not_paid o.status)
  issue_items w o o.items

-- issueEntitlementsForOrder, in a transaction of its own; `issuedCount` is the length of the list.
unfoldable pub issue_entitlements_for_order :
    Draws → ℕ → Store → Result IssueError (List Entitlement) × Store
issue_entitlements_for_order w order_id s = transaction (issue_tx w order_id) s
