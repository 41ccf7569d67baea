-- ===== src/Checkout/Examples.antt =====
-- A cart with two pieces of a licence for life, its checkout, and the issue that follows.
use d_n_i_p.Prelude.{
  pos, ◌≤◌, ◌≡◌, refl, true, false, none, some, List, [], ◌∷◌, map, length, All, arith,
}
use d_n_i_p.Tx.{ok, err, transaction}
use d_n_i_p.Entitlement.Model.{Entitlement, FulfillmentType}
use d_n_i_p.Entitlement.Policy.{OrderStatus}
use d_n_i_p.Entitlement.Issue as Issue
use d_n_i_p.Entitlement.Issue.{issue_entitlements_for_order}
use d_n_i_p.Checkout.Model.{
  CatalogStatus, CartStatus, Price, LicensePlan, Product, Variant, CartItem, Cart, Line,
  CheckoutResponse, CheckoutError, Store,
}
use d_n_i_p.Checkout.Pricing.{
  max_safe_amount, make_line, add_line, live, resolve_price, price_error, price_item, price_items,
}
use d_n_i_p.Checkout.Orders.{
  Request, claim_cart, make_order, make_payment, add_order, commit_key, checkout_tx,
}
use d_n_i_p.Checkout.Keys.{reserve, release, settle, proceed, checkout}
use d_n_i_p.Checkout.Totals.{sum_of, IsBounded}
use d_n_i_p.Checkout.Placed.{placed}
use d_n_i_p.Checkout.Amounts.{checkout_tx-totals}
use d_n_i_p.Checkout.Once.{checkout_error, checkout_again}
use d_n_i_p.Payment.Model as Pay
use d_n_i_p.Payment.Spec.History.{Call, empty_store}
use d_n_i_p.Checkout.Joined.{Joined, checkout_tx-Call}
use d_n_i_p.Checkout.Issuable.{checkout_issues}

abbrev a_plan : LicensePlan
a_plan = record {
  id = 60;
  is_lifetime = true;
  duration_days = none;
  duration_months = none;
  max_activations = pos 3;
  updates_days = some (pos 365);
  support_days = none;
}

abbrev a_product : Product
a_product = record {
  id = 50;
  status = CatalogStatus.active;
  fulfillment_type = FulfillmentType.internal_license;
}

abbrev a_price : Price
a_price = record { id = 40; variant_id = 30; currency = 3; amount = pos 250; is_active = true }

abbrev a_variant : Variant
a_variant = record {
  id = 30;
  status = CatalogStatus.active;
  product = some a_product;
  license_plan = some a_plan;
  prices = a_price ∷ [];
}

abbrev an_item : CartItem
an_item = record {
  price_id = some 40;
  quantity = pos 2;
  price = some a_price;
  variant = some a_variant;
}

abbrev a_cart : Cart
a_cart = record {
  id = 20;
  user_id = 7;
  status = CartStatus.active;
  currency = 3;
  items = an_item ∷ [];
}

abbrev a_store : Store
a_store = record { carts = a_cart ∷ []; orders = []; payments = []; keys = []; audit_rows = [] }

abbrev no_cart : Store
no_cart = record a_store { carts = [] }

abbrev a_request : Request
a_request = record {
  user_id = 7;
  currency = 3;
  key = some 99;
  order_id = 1;
  order_number = 1001;
  item_id = 70;
  payment_id = 10;
  provider = 5;
}

abbrev no_key : Request
no_key = record a_request { key = none }

abbrev an_answer : CheckoutResponse
an_answer =
    let lines = make_line 3 70 a_variant a_product 250 2 ∷ [] in
    let o = make_order a_request a_cart lines 500 in
    record { order = o; payment = make_payment a_request o }

ran : checkout_tx no_key a_store ≡ ok (an_answer, placed no_key a_cart an_answer a_store)
unfolding checkout_tx claim_cart price_items price_item add_line live resolve_price price_error
    add_order commit_key make_order make_payment
ran = refl

checkout_tx-totals_example :
    (c : Cart) × (some a_cart ≡ some c)
    × (length an_answer.order.lines ≡ length c.items)
    × All IsBounded an_answer.order.lines
    × (an_answer.order.total_amount ≡ sum_of an_answer.order.lines)
    × (an_answer.order.total_amount ≤ max_safe_amount)
    × (an_answer.payment.amount ≡ pos an_answer.order.total_amount)
    × (an_answer.payment.order_id ≡ an_answer.order.id)
checkout_tx-totals_example = checkout_tx-totals no_key a_store an_answer _ ran

led : (checkout 1000 8 false [] a_request a_store).0 ≡ ok an_answer
unfolding checkout transaction proceed reserve settle checkout_tx claim_cart price_items price_item
    add_line live resolve_price price_error add_order commit_key make_order make_payment
led = refl

checkout_again_example :
    checkout 2000 8 true [] a_request (checkout 1000 8 false [] a_request a_store).1
    ≡ (ok an_answer, (checkout 1000 8 false [] a_request a_store).1)
checkout_again_example =
    checkout_again 1000 8 [] a_request 99 a_store an_answer 2000 true [] a_request refl refl led
      refl refl (omega arith)

no_cart_fails : (checkout 1000 8 false [] a_request no_cart).0 ≡ err CheckoutError.cart_is_empty
unfolding checkout transaction proceed reserve settle checkout_tx claim_cart release
no_cart_fails = refl

checkout_error_example : (checkout 1000 8 false [] a_request no_cart).1 ≡ no_cart
checkout_error_example =
    checkout_error 1000 8 [] a_request 99 no_cart CheckoutError.cart_is_empty refl refl
      no_cart_fails

abbrev paid_order : Issue.Order
paid_order = record {
  id = 1;
  user_id = 7;
  status = OrderStatus.paid;
  items = map Line.item an_answer.order.lines;
}

abbrev paid_store : Issue.Store
paid_store = record { orders = paid_order ∷ []; entitlements = []; audit_rows = [] }

abbrev draws : Issue.Draws
draws = record { new_id = λ i. i; now = λ i. 5000; rival = λ i. none }

checkout_issues_example :
    (es : List Entitlement) × ((issue_entitlements_for_order draws 1 paid_store).0 ≡ ok es)
unfolding make_order
checkout_issues_example =
    checkout_issues no_key a_store an_answer _ a_cart draws paid_order paid_store ran refl
      (refl, tt) refl refl refl (λ j. omega arith)

checkout_tx-Call_example :
    (t' : Pay.Store) × Call empty_store t' × Joined (placed no_key a_cart an_answer a_store) t'
checkout_tx-Call_example =
    checkout_tx-Call no_key a_store an_answer _ empty_store ran (refl, refl) refl refl tt
