-- ===== src/Checkout/Amounts.antt =====
-- What an order of a checkout costs (apps/api/src/modules/orders/orders.service.ts).
use d_n_i_p.Prelude.{◌≤◌, ◌≡◌, refl, pos, some, length, All, arith, find?}
use d_n_i_p.Tx.{ok}
use d_n_i_p.Checkout.Model.{Cart, CheckoutResponse, Store, active_cart_of}
use d_n_i_p.Checkout.Pricing.{max_safe_amount}
use d_n_i_p.Checkout.Orders.{Request, make_order, make_payment, checkout_tx}
use d_n_i_p.Checkout.Totals.{sum_of, IsBounded, price_items-totals}
use d_n_i_p.Checkout.Placed.{checkout_tx-Placed}

-- A checkout that returns has one order item for each item of the user's active cart, each of a
-- quantity from 1 to 999 and of unit and line amounts that fit 32 bits; the order's total is the
-- sum of the line amounts and fits 32 bits, and its payment is of that total.
pub checkout_tx-totals :
    (q : Request) (s : Store) (r : CheckoutResponse) (s' : Store)
    → checkout_tx q s ≡ ok (r, s')
    → (c : Cart) × (find? (active_cart_of q.user_id) s.carts ≡ some c)
      × (length r.order.lines ≡ length c.items)
      × All IsBounded r.order.lines
      × (r.order.total_amount ≡ sum_of r.order.lines)
      × (r.order.total_amount ≤ max_safe_amount)
      × (r.payment.amount ≡ pos r.order.total_amount)
      × (r.payment.order_id ≡ r.order.id)
unfolding make_order make_payment
checkout_tx-totals q s r s' h =
    let f = checkout_tx-Placed q s r s' h in
    let (total, fits, same, all) =
      price_items-totals q.currency q.item_id 0 f.cart.items f.lines f.subtotal f.items_priced
        (omega arith) in
    (
      f.cart,
      f.cart_found,
      rw f.order_made same,
      rw f.order_made all,
      rw f.order_made (omega (arith, total)),
      rw f.order_made (omega (arith, fits)),
      rw f.payment_made refl,
      rw f.payment_made refl,
    )
