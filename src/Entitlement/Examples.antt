-- ===== src/Entitlement/Examples.antt =====
-- The entitlement engine at a concrete order: an item with a plan of one month and one without a
-- plan. The theorems are applied here.
use d_n_i_p.Prelude.{
  ℕ, ◌+◌, ◌-◌, ◌≤◌, min, ◌≡◌, refl, true, false, none, some, [], ◌∷◌, ◌%◌, ◌/◌, ◌*◌, arith, pos,
  Unique, count_where,
}
use d_n_i_p.Tx.{ok, transaction}
use d_n_i_p.Entitlement.Model.{Entitlement, FulfillmentType, find_entitlement}
use d_n_i_p.Entitlement.Calendar.{
  day_ms, max_time, new_date, month_end, Civil, civil, day_number, days_to, days_in_year,
  month_start, add_months, add_utc_months, is_leap, days_in_month,
}
use d_n_i_p.Entitlement.Dates.{add_utc_months-civil}
use d_n_i_p.Entitlement.Days.{IsDate}
use d_n_i_p.Entitlement.Policy.{
  OrderItem, OrderStatus, calculate_expiration_date, days_after, item_dates, snapshot_error,
  plan_error, has_polluted_rights,
}
use d_n_i_p.Entitlement.Issue.{
  Order, Store, Draws, new_entitlement, commit_rival, insert_row, create_item, issue_item,
  issue_items, issue_tx, issue_entitlements_for_order, is_paid,
}
use d_n_i_p.Entitlement.Issued.{issue_entitlements_for_order_twice}
use d_n_i_p.Entitlement.Once.{
  Matched, issue_entitlements_for_order-Matched, issue_entitlements_for_order-Unique,
}
use d_n_i_p.Entitlement.Expire.{is_due, expire_due_entitlements}
use d_n_i_p.Entitlement.Expired.{nobody, expire_due_entitlements_completes}
use d_n_i_p.Prelude.{find?, ◌==◌}

abbrev planned : OrderItem
planned = record {
  id = 3;
  product_id = 4;
  variant_id = 5;
  fulfillment_type = FulfillmentType.internal_license;
  quantity = 1;
  license_plan_id_at_purchase = some 8;
  is_lifetime = false;
  duration_days = none;
  duration_months = some (pos 1);
  max_activations = some (pos 2);
  updates_days = some (pos 30);
  support_days = none;
  snapshot_version = some (pos 1);
}

abbrev unplanned : OrderItem
unplanned = record planned {
  id = 6;
  license_plan_id_at_purchase = none;
  duration_months = none;
  max_activations = none;
  updates_days = none;
}

abbrev order : Order
order = record { id = 2; user_id = 7; status = OrderStatus.paid; items = planned ∷ unplanned ∷ [] }

-- 31 January 1972, one hour after midnight.
abbrev beginning : ℕ
beginning = 760 * day_ms + 3600000

abbrev draws : Draws
draws = record { new_id = λ i. i + 100; now = λ i. beginning; rival = λ i. none }

abbrev empty : Store
empty = record { orders = order ∷ []; entitlements = []; audit_rows = [] }

abbrev first : Entitlement
first = new_entitlement order planned 103 beginning (record {
  expires_at = some (789 * day_ms + 3600000);
  updates_until = some (790 * day_ms + 3600000);
  support_until = none;
})

abbrev second : Entitlement
second =
    new_entitlement order unplanned 106 beginning
      (record { expires_at = none; updates_until = none; support_until = none })

issued : (issue_entitlements_for_order draws 2 empty).0 ≡ ok (first ∷ second ∷ [])
unfolding issue_entitlements_for_order issue_tx issue_items issue_item create_item insert_row
    commit_rival new_entitlement item_dates calculate_expiration_date add_utc_months new_date
    days_after civil add_months day_number month_end days_in_month is_leap days_to days_in_year
    month_start snapshot_error plan_error has_polluted_rights transaction
issued = refl

issue_entitlements_for_order_twice_example :
    issue_entitlements_for_order draws 2 (issue_entitlements_for_order draws 2 empty).1
    ≡ (ok (first ∷ second ∷ []), (issue_entitlements_for_order draws 2 empty).1)
issue_entitlements_for_order_twice_example =
    issue_entitlements_for_order_twice draws draws 2 empty (first ∷ second ∷ []) issued

issue_entitlements_for_order-Matched_example :
    (o : Order) × (find? (λ x. x.id == 2) empty.orders ≡ some o)
    × (is_paid o.status ≡ true)
    × Matched o.items (first ∷ second ∷ []) (issue_entitlements_for_order draws 2 empty).1
issue_entitlements_for_order-Matched_example =
    issue_entitlements_for_order-Matched draws 2 empty (first ∷ second ∷ []) issued

-- A rival commits an entitlement of the first item in the meantime.
abbrev rivalled : Draws
rivalled = record draws { rival = λ i. some (record first { id = 900 }) }

issue_entitlements_for_order-Unique_example :
    Unique Entitlement.order_item_id (issue_entitlements_for_order rivalled 2 empty).1.entitlements
issue_entitlements_for_order-Unique_example =
    issue_entitlements_for_order-Unique rivalled 2 empty tt

-- 31 January 1972.
abbrev late_january : Civil
late_january = record { year = 2; month = 0; day = 30 }

late_january-IsDate : IsDate late_january
unfolding days_in_month
late_january-IsDate = (omega arith, omega arith)

-- One hour after midnight on 29 February 1972.
abbrev month_on : ℕ
month_on = 789 * day_ms + 3600000

moved : add_utc_months beginning 1 ≡ some month_on
unfolding add_utc_months new_date civil add_months day_number month_end days_in_month is_leap
    days_to days_in_year month_start
moved = refl

add_utc_months-civil_example :
    let c = civil (beginning / day_ms) in
    let c' = civil (month_on / day_ms) in
    (12 * c'.year + c'.month ≡ 12 * c.year + c.month + 1)
    × (c'.day ≡ min c.day (days_in_month (is_leap (1970 + c'.year)) c'.month - 1))
    × (month_on % day_ms ≡ beginning % day_ms)
    × (month_on ≤ max_time)
add_utc_months-civil_example = add_utc_months-civil beginning 1 month_on moved

-- The end of February in a leap year.
month_later : add_months late_january 1 ≡ record { year = 2; month = 1; day = 28 }
unfolding add_months days_in_month is_leap
month_later = refl

abbrev ended : Entitlement
ended = record first { expires_at = some 10 }

abbrev running : Entitlement
running = record second { expires_at = some 30 }

abbrev store : Store
store = record { orders = []; entitlements = ended ∷ running ∷ []; audit_rows = [] }

ids_differ : Unique Entitlement.id store.entitlements
unfolding new_entitlement
ids_differ = ground arith

expire_due_entitlements_completes_example :
    count_where (is_due nobody 20) (expire_due_entitlements nobody none 9 20 store).1.entitlements
    ≡ 0
unfolding is_due new_entitlement
expire_due_entitlements_completes_example =
    expire_due_entitlements_completes none 9 20 store (omega arith)

running_not_due : is_due nobody 20 running ≡ false
unfolding is_due new_entitlement
running_not_due = refl

running_found : find_entitlement 106 store.entitlements ≡ some running
unfolding new_entitlement
running_found = refl
