-- ===== src/Checkout/Placed.antt =====
-- What a checkout that returns has stored (apps/api/src/modules/orders/orders.service.ts).
use d_n_i_p.Prelude.{
  ℕ, ◌≡◌, refl, ap, inl, inr, false, ◌&&◌, none, some, is_some, List, [], ◌∷◌, ◌++◌, ◌==◌, arith,
  find?, any, count_where, update_where, Bool-cases, Option-cases,
}
use d_n_i_p.Tx.{ok, result-cases, run-cases}
use d_n_i_p.Checkout.Model.{
  CartStatus, Cart, Line, Order, CheckoutResponse, Store, active_cart_of, key_of, Key, KeyStatus,
}
use d_n_i_p.Checkout.Pricing.{price_items}
use d_n_i_p.Checkout.Orders.{
  Request, is_nil, claim_cart, make_order, make_payment, add_order, commit_key, checkout_tx,
}

abbrev pub to_converted : Request → Cart → List Cart → List Cart
to_converted q c =
    update_where (λ x. x.id == c.id && active_cart_of q.user_id x)
      (λ x. record x { status = CartStatus.converted })

claim_cart-ok :
    (q : Request) (s : Store) (c : Cart) (s' : Store)
    → claim_cart q s ≡ ok (c, s')
    → (find? (active_cart_of q.user_id) s.carts ≡ some c)
      × (c.currency ≡ q.currency)
      × (s' ≡ record s { carts = to_converted q c s.carts })
unfolding claim_cart
claim_cart-ok q s c s' h = elim (Option-cases (find? (active_cart_of q.user_id) s.carts)) [
  | inl e ↦ absurd (ground arith)
  | inr (d, e) ↦ elim (Bool-cases (d.currency == q.currency)) [
    | inr f ↦ absurd (ground arith)
    | inl f ↦ elim (Bool-cases (is_nil d.items)) [
      | inl g ↦ absurd (ground arith)
      | inr g ↦
          elim (Bool-cases
            (count_where (λ x. x.id == d.id && active_cart_of q.user_id x) s.carts == 0)) [
              | inl k ↦ absurd (ground arith)
              | inr k ↦
                  let same : c ≡ d = ground arith in
                  let stored : s' ≡ record s { carts = to_converted q d s.carts } = ground arith in
                  rw same (e, ground arith, stored)
            ]
    ]
  ]
]

-- The keys after the commit.
abbrev pub commit_all : Request → CheckoutResponse → List Key → List Key
commit_all q r ks = elim q.key [
  | none ↦ ks
  | some k ↦
      update_where (key_of q.user_id k)
        (λ x. record x { status = KeyStatus.committed; response = some r }) ks
]

commit_key-ok :
    (q : Request) (r : CheckoutResponse) (s : Store) (u : Unit {0}) (s' : Store)
    → commit_key q r s ≡ ok (u, s')
    → s' ≡ record s { keys = commit_all q r s.keys }
unfolding commit_key
commit_key-ok q r s u s' h = elim (Option-cases q.key) [
  | inl e ↦ rw e (ground arith)
  | inr (k, e) ↦ elim (Bool-cases (is_some (find? (key_of q.user_id k) s.keys))) [
    | inr f ↦ absurd (ground arith)
    | inl f ↦ rw e (ground arith)
  ]
]

add_order-ok :
    (o : Order) (s : Store) (u : Unit {0}) (s' : Store)
    → add_order o s ≡ ok (u, s')
    → (any (λ x. x.cart_id == o.cart_id) s.orders ≡ false)
      × (s' ≡ record s { orders = s.orders ++ o ∷ [] })
unfolding add_order
add_order-ok o s u s' h = elim (Bool-cases (any (λ x. x.cart_id == o.cart_id) s.orders)) [
  | inl e ↦ absurd (ground arith)
  | inr e ↦ (e, ground arith)
]

-- The tables after a checkout.
abbrev pub placed : Request → Cart → CheckoutResponse → Store → Store
placed q c r s = record {
  carts = to_converted q c s.carts;
  orders = s.orders ++ r.order ∷ [];
  payments = s.payments ++ r.payment ∷ [];
  keys = commit_all q r s.keys;
  audit_rows =
      s.audit_rows
      ++ record { order_id = r.order.id; actor_id = q.user_id; total_amount = r.order.total_amount }
        ∷ [];
}

-- The response of a checkout, and what it has stored.
pub record Placed (q : Request) (s : Store) (r : CheckoutResponse) (s' : Store) : Type 0 where
  pub cart : Cart
  pub lines : List Line
  pub subtotal : ℕ
  pub cart_found : find? (active_cart_of q.user_id) s.carts ≡ some cart
  pub right_currency : cart.currency ≡ q.currency
  pub items_priced : price_items q.currency q.item_id 0 cart.items ≡ ok (lines, subtotal)
  pub cart_free : any (λ x. x.cart_id == cart.id) s.orders ≡ false
  pub order_made : r.order ≡ make_order q cart lines subtotal
  pub payment_made : r.payment ≡ make_payment q r.order
  pub stored : s' ≡ placed q cart r s

pub checkout_tx-Placed :
    (q : Request) (s : Store) (r : CheckoutResponse) (s' : Store)
    → checkout_tx q s ≡ ok (r, s')
    → Placed q s r s'
unfolding checkout_tx make_order make_payment
checkout_tx-Placed q s r s' h = elim (run-cases (claim_cart q s)) [
  | inl (x, e) ↦ absurd (ground arith)
  | inr (c, s1, e) ↦ elim (result-cases (price_items q.currency q.item_id 0 c.items)) [
    | inl (x, f) ↦ absurd (ground arith)
    | inr ((lines, subtotal), f) ↦
        let o = make_order q c lines subtotal in
        elim (run-cases (add_order o s1)) [
          | inl (x, g) ↦ absurd (ground arith)
          | inr (u, s2, g) ↦
              let p = make_payment q o in
              let r0 : CheckoutResponse = record { order = o; payment = p } in
              let s3 : Store = record s2 { payments = s2.payments ++ p ∷ [] } in
              elim (run-cases (commit_key q r0 s3)) [
                | inl (x, k) ↦ absurd (ground arith)
                | inr (u', s4, k) ↦
                    let (found, currency, s1_is) = claim_cart-ok q s c s1 e in
                    let (free, s2_is) = add_order-ok o s1 u s2 g in
                    let s4_is = commit_key-ok q r0 s3 u' s4 k in
                    let same : r ≡ r0 = ground arith in
                    record {
                      cart = c;
                      lines = lines;
                      subtotal = subtotal;
                      cart_found = found;
                      right_currency = currency;
                      items_priced = f;
                      cart_free = ground arith;
                      order_made = ap CheckoutResponse.order same;
                      payment_made = rw same refl;
                      stored = ground arith;
                    }
              ]
        ]
  ]
]
