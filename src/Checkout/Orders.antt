-- ===== src/Checkout/Orders.antt =====
-- The transaction of checkout (apps/api/src/modules/orders/orders.service.ts).
use d_n_i_p.Prelude.{
  ℕ, pos, Bool, true, false, not, ◌&&◌, ◌-◌, Option, none, some, is_some, List, [], ◌∷◌, ◌++◌, ◌==◌,
  find?, any, count_where, update_where, if◌then◌else◌,
}
use d_n_i_p.Tx.{Result, ok, err, Tx, ◌>>=◌, ◌>>◌, pure, gets, modify, check, found}
use d_n_i_p.Entitlement.Policy.{OrderStatus}
use d_n_i_p.Payment.Model.{Payment, PaymentStatus}
use d_n_i_p.Checkout.Model.{
  CartStatus, is_converted, Cart, Line, Order, CheckoutResponse, KeyStatus, Store, CheckoutError,
  key_of, active_cart_of,
}
use d_n_i_p.Checkout.Pricing.{price_items}

-- What a checkout is given: the user, the DTO, and what it draws: the ids of the order, of its
-- first item and of the payment, the order's number, and the name of the first provider.
pub record Request : Type 0 where
  pub user_id : ℕ
  pub currency : ℕ
  pub key : Option ℕ
  pub order_id : ℕ
  pub order_number : ℕ
  pub item_id : ℕ
  pub payment_id : ℕ
  pub provider : ℕ

abbrev pub is_nil : {A : Type 0} → List A → Bool
is_nil [] = true
is_nil (x ∷ xs) = false

-- Steps 1 to 4: the user's active cart is locked, checked and claimed.
unfoldable pub claim_cart : Request → Tx Store CheckoutError Cart
claim_cart q = do
  row ← gets (λ s. find? (active_cart_of q.user_id) s.carts)
  converted ← gets (λ s. any (λ c. c.user_id == q.user_id && is_converted c.status) s.carts)
  c ←
      found row
        (if converted then CheckoutError.already_checked_out else CheckoutError.cart_is_empty)
  check (c.currency == q.currency) CheckoutError.currency_mismatch
  check (not (is_nil c.items)) CheckoutError.cart_is_empty
  let mine = λ (x : Cart). x.id == c.id && active_cart_of q.user_id x
  n ← gets (λ s. count_where mine s.carts)
  modify (λ s. record s {
    carts = update_where mine (λ x. record x { status = CartStatus.converted }) s.carts;
  })
  check (not (n == 0)) CheckoutError.already_checked_out
  pure c

abbrev pub lift : {A : Type 0} → Result CheckoutError A → Tx Store CheckoutError A
lift (ok a) s = ok (a, s)
lift (err e) s = err e

-- The order; `subtotal - discount` does not stop at 0, since the discount is 0.
unfoldable pub make_order : Request → Cart → List Line → ℕ → Order
make_order q c lines subtotal = record {
  id = q.order_id;
  order_number = q.order_number;
  user_id = q.user_id;
  status = OrderStatus.pending_payment;
  currency = q.currency;
  subtotal_amount = subtotal;
  discount_amount = 0;
  total_amount = subtotal - 0;
  cart_id = c.id;
  lines = lines;
}

unfoldable pub make_payment : Request → Order → Payment
make_payment q o = record {
  id = q.payment_id;
  order_id = o.id;
  provider = q.provider;
  provider_reference = none;
  status = PaymentStatus.pending;
  amount = pos o.total_amount;
  currency = q.currency;
}

-- The row of the idempotency key takes the response. The update throws if there is none.
unfoldable pub commit_key : Request → CheckoutResponse → Tx Store CheckoutError (Unit {0})
commit_key q r s = elim q.key [
  | none ↦ ok (tt, s)
  | some k ↦
      if is_some (find? (key_of q.user_id k) s.keys)
      then ok (
        tt,
        record s {
          keys =
              update_where (key_of q.user_id k)
                (λ x. record x { status = KeyStatus.committed; response = some r }) s.keys;
        },
      )
      else err CheckoutError.key_missing
]

-- The insert of the order; the index on the cart refuses a second order of a cart.
unfoldable pub add_order : Order → Tx Store CheckoutError (Unit {0})
add_order o = do
  taken ← gets (λ s. any (λ x. x.cart_id == o.cart_id) s.orders)
  check (not taken) CheckoutError.cart_already_converted
  modify (λ s. record s { orders = s.orders ++ o ∷ [] })

unfoldable pub checkout_tx : Request → Tx Store CheckoutError CheckoutResponse
unfolding claim_cart make_order make_payment add_order commit_key
checkout_tx q = do
  c ← claim_cart q
  (lines, subtotal) ← lift (price_items q.currency q.item_id 0 c.items)
  let o = make_order q c lines subtotal
  add_order o
  let p = make_payment q o
  modify (λ s. record s { payments = s.payments ++ p ∷ [] })
  let r : CheckoutResponse = record { order = o; payment = p }
  commit_key q r
  modify (λ s. record s {
    audit_rows =
        s.audit_rows
        ++ record { order_id = o.id; actor_id = q.user_id; total_amount = o.total_amount } ∷ [];
  })
  pure r
