-- ===== src/Checkout/Issuable.antt =====
-- The order items of a checkout (apps/api/src/modules/orders/orders.service.ts) are such that the
-- entitlement engine issues them (packages/database/src/domain/entitlement-engine.ts).
use d_n_i_p.Prelude.{
  ℕ, suc, ◌≤◌, ◌≡◌, refl, ap, inl, inr, to_ℕ, Bool, true, not, ◌&&◌, ◌||◌, none, some, List, [],
  ◌∷◌, map, All, ◌==◌, arith, find?, Option-cases,
}
use d_n_i_p.Tx.{ok, run-cases, transaction-of-ok}
use d_n_i_p.Entitlement.Model.{Entitlement}
use d_n_i_p.Entitlement.Policy.{
  OrderItem, is_positive, is_bad, plan_error, has_polluted_rights, snapshot_error,
}
use d_n_i_p.Entitlement.Issue.{
  Draws, find_by_item, create_item, issue_item, issue_items, issue_tx, issue_entitlements_for_order,
  is_paid,
}
use d_n_i_p.Entitlement.Issue as Issue
use d_n_i_p.Entitlement.Ranges.{is_short, item_dates-some}
use d_n_i_p.Checkout.Model.{
  LicensePlan, Product, Variant, CartItem, Cart, Line, CheckoutResponse, Store, active_cart_of,
}
use d_n_i_p.Checkout.Pricing.{snapshot, make_line, price_items}
use d_n_i_p.Checkout.Orders.{Request, make_order, checkout_tx}
use d_n_i_p.Checkout.Totals.{Priced, priced, price_item-Priced, price_items-cons}
use d_n_i_p.Checkout.Placed.{checkout_tx-Placed}

-- A plan that gives activations, and that is for life or has a duration; what it gives is more
-- than 0, and at most ten million days and 300000 months.
abbrev pub is_sound : LicensePlan → Bool
is_sound p =
    is_positive (some p.max_activations)
    && (p.is_lifetime || is_positive p.duration_days || is_positive p.duration_months)
    && not (is_bad p.duration_days)
    && not (is_bad p.duration_months)
    && not (is_bad p.updates_days)
    && not (is_bad p.support_days)
    && is_short p.duration_days p.duration_months p.updates_days p.support_days

abbrev pub has_sound_plan : CartItem → Bool
has_sound_plan i = elim i.variant [
  | none ↦ true
  | some v ↦ elim v.license_plan [ none ↦ true | some p ↦ is_sound p ]
]

-- An item whose snapshot passes, and whose rights end within the range of a Date.
abbrev pub IsIssuable : OrderItem → Type 0
IsIssuable i =
    (snapshot_error i ≡ none)
    × (is_short i.duration_days i.duration_months i.updates_days i.support_days ≡ true)

snapshot_sound :
    (id : ℕ) (v : Variant) (d : Product) (n : ℕ)
    → (elim v.license_plan [ none ↦ true | some p ↦ is_sound p ]) ≡ true
    → IsIssuable (snapshot id v d n)
unfolding snapshot snapshot_error plan_error has_polluted_rights
snapshot_sound id v d n h = elim (Option-cases v.license_plan) [
  | inl e ↦ rw (snapshot, e) (refl, refl)
  | inr (p, e) ↦
      let good : is_sound p ≡ true = rw e at h in rw (snapshot, e) (ground arith, ground arith)
]

items-IsIssuable :
    (currency next_id subtotal : ℕ) (is : List CartItem) (lines : List Line) (total : ℕ)
    → price_items currency next_id subtotal is ≡ ok (lines, total)
    → All (λ i. has_sound_plan i ≡ true) is
    → All IsIssuable (map Line.item lines)
unfolding price_items make_line
items-IsIssuable currency next_id subtotal [] lines total h k =
    let none_of : lines ≡ [] = ground arith in rw none_of tt
items-IsIssuable currency next_id subtotal (i ∷ is) lines total h k =
    let (l, sum, rest, f, g, eq) = price_items-cons currency next_id subtotal i is lines total h in
    rw eq (
      line-IsIssuable (price_item-Priced currency next_id subtotal i l sum f),
      items-IsIssuable currency (suc next_id) sum is rest total g (k.1),
    )
  where
    line-IsIssuable :
        {l : Line} {sum : ℕ} → Priced currency next_id subtotal i l sum → IsIssuable l.item
    line-IsIssuable {l} {sum} (priced v d p here _ _ eq _ _ _ _) =
        let sound = rw here at (k.0) in rw eq (snapshot_sound next_id v d (to_ℕ i.quantity) sound)

issue_item-returns :
    (w : Draws) (o : Issue.Order) (i : OrderItem) (s : Issue.Store)
    → ((j : ℕ) → w.now j ≤ 4000000000000000)
    → IsIssuable i
    → (es : List Entitlement) × (s' : Issue.Store) × (issue_item w o i s ≡ ok (es, s'))
unfolding issue_item create_item
issue_item-returns w o i s timely h = elim (run-cases (issue_item w o i s)) [
  | inr (es, s', f) ↦ (es, s', f)
  | inl (x, f) ↦ elim (Option-cases (find_by_item i.id s.entitlements)) [
    | inr (e, g) ↦ absurd (ground arith)
    | inl g ↦
        let (d, dated) = item_dates-some (w.now i.id) i (timely i.id) (h.1) in
        absurd (ground (arith, h.0))
  ]
]

issue_items-return :
    (w : Draws) (o : Issue.Order) (is : List OrderItem) (s : Issue.Store)
    → ((j : ℕ) → w.now j ≤ 4000000000000000)
    → All IsIssuable is
    → (es : List Entitlement) × (s' : Issue.Store) × (issue_items w o is s ≡ ok (es, s'))
unfolding issue_items
issue_items-return w o [] s timely h = (_, _, refl)
issue_items-return w o (i ∷ is) s timely h =
    let (first, t, f) = issue_item-returns w o i s timely (h.0) in
    let (rest, u, g) = issue_items-return w o is t timely (h.1) in
    elim (run-cases (issue_items w o (i ∷ is) s)) [
      | inr (es, s', k) ↦ (es, s', k)
      | inl (x, k) ↦ absurd (ground arith)
    ]

-- Once the order of a checkout is PAID, the issue of its entitlements succeeds, if each plan in
-- the cart gives activations, is for life or has a duration, and gives more than 0 where it
-- gives, at most ten million days and 300000 months, and the clock of the issue is not past the time 4e15
-- (after the year 100000).
pub checkout_issues :
    (q : Request) (s : Store) (r : CheckoutResponse) (s' : Store) (c : Cart) (w : Draws)
    (o : Issue.Order) (t : Issue.Store)
    → checkout_tx q s ≡ ok (r, s')
    → find? (active_cart_of q.user_id) s.carts ≡ some c
    → All (λ i. has_sound_plan i ≡ true) c.items
    → find? (λ x. x.id == r.order.id) t.orders ≡ some o
    → o.items ≡ map Line.item r.order.lines
    → is_paid o.status ≡ true
    → ((j : ℕ) → w.now j ≤ 4000000000000000)
    → (es : List Entitlement) × ((issue_entitlements_for_order w r.order.id t).0 ≡ ok es)
unfolding issue_entitlements_for_order issue_tx make_order
checkout_issues q s r s' c w o t h hc sound ho items paid timely =
    let f = checkout_tx-Placed q s r s' h in
    let same : f.cart ≡ c = ground (arith, f.cart_found) in
    let priced = f.items_priced in
    let good =
      items-IsIssuable q.currency q.item_id 0 f.cart.items f.lines f.subtotal priced
        (rw same sound) in
    let lines_are : r.order.lines ≡ f.lines = rw f.order_made refl in
    let fine : All IsIssuable o.items = rw (items, lines_are) good in
    let (es, u, run) = issue_items-return w o o.items t timely fine in
    let ran : issue_tx w r.order.id t ≡ ok (es, u) = ground arith in
    (es, ap (λ x. x.0) (transaction-of-ok (issue_tx w r.order.id) t u es ran))
