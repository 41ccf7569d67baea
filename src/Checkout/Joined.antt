-- ===== src/Checkout/Joined.antt =====
-- A checkout (apps/api/src/modules/orders/orders.service.ts) on the tables of the payments
-- (apps/api/src/modules/payments/payments.service.ts): it is a call of their histories.
use d_n_i_p.Prelude.{pos, ◌≡◌, ◌≢◌, ◌∙◌, refl, sym, ap, none, List, [], ◌∷◌, ◌++◌, map, All}
use d_n_i_p.Tx.{ok}
use d_n_i_p.Payment.Model.{PayOrder, find_payment, find_order}
use d_n_i_p.Payment.Model as Pay
use d_n_i_p.Payment.Spec.Placing.{Fresh, add_placed}
use d_n_i_p.Payment.Spec.History.{Call, checkout}
use d_n_i_p.Checkout.Model.{Order, CheckoutResponse, Store}
use d_n_i_p.Checkout.Orders.{Request, make_order, make_payment, checkout_tx}
use d_n_i_p.Checkout.Placed.{checkout_tx-Placed}

-- The columns of an order that the payments read.
unfoldable pub payable_order : Order → PayOrder
payable_order o = record {
  id = o.id;
  order_number = o.order_number;
  user_id = o.user_id;
  status = o.status;
  total_amount = pos o.total_amount;
  currency = o.currency;
}

map-append :
    {A B : Type 0} (f : A → B) (xs : List A) (x : A) → map f (xs ++ x ∷ []) ≡ map f xs ++ f x ∷ []
map-append f [] x = refl
map-append f (y ∷ ys) x = ap (λ zs. f y ∷ zs) (map-append f ys x)

-- The order and the payment tables of both are the same.
abbrev pub Joined : Store → Pay.Store → Type 0
Joined s t = (t.orders ≡ map payable_order s.orders) × (t.payments ≡ s.payments)

-- A checkout that returns is a call of the histories of payments, if the ids that it draws are new.
pub checkout_tx-Call :
    (q : Request) (s : Store) (r : CheckoutResponse) (s' : Store) (t : Pay.Store)
    → checkout_tx q s ≡ ok (r, s')
    → Joined s t
    → find_order q.order_id t.orders ≡ none
    → find_payment q.payment_id t.payments ≡ none
    → All (λ x. x.order_id ≢ q.order_id) t.payments
    → (t' : Pay.Store) × Call t t' × Joined s' t'
unfolding payable_order make_order make_payment add_placed
checkout_tx-Call q s r s' t h joined new_order new_payment unreferred =
    let f = checkout_tx-Placed q s r s' h in
    let o = payable_order (make_order q f.cart f.lines f.subtotal) in
    let p = make_payment q (make_order q f.cart f.lines f.subtotal) in
    let fresh : Fresh o p t = record {
      new_order = new_order;
      new_payment = new_payment;
      unreferred = unreferred;
      payable = refl;
      pending = refl;
      of_order = refl;
      of_total = refl;
      of_currency = refl;
    } in
    let made = make_order q f.cart f.lines f.subtotal in
    let orders_are : s'.orders ≡ s.orders ++ made ∷ [] =
      ap Store.orders f.stored ∙ ap (λ x. s.orders ++ x ∷ []) f.order_made in
    let payments_are : s'.payments ≡ s.payments ++ p ∷ [] =
      ap Store.payments f.stored
      ∙ ap (λ x. s.payments ++ x ∷ []) (f.payment_made ∙ ap (make_payment q) f.order_made) in
    (
      add_placed o p t,
      checkout o p fresh,
      (
        ap (λ xs. xs ++ o ∷ []) joined.0
            ∙ sym (map-append payable_order s.orders made)
            ∙ ap (map payable_order) (sym orders_are),
        ap (λ xs. xs ++ p ∷ []) joined.1 ∙ sym payments_are,
      ),
    )
