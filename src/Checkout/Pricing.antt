-- ===== src/Checkout/Pricing.antt =====
-- The check of the items and their prices, and the order items that they make, in checkout
-- (apps/api/src/modules/orders/orders.service.ts).
use d_n_i_p.Prelude.{
  ℕ, zero, suc, ◌+◌, ◌*◌, ℤ, pos, negsuc, to_ℕ, Bool, true, false, not, ◌&&◌, ◌||◌, Option, none,
  some, List, [], ◌∷◌, ◌==◌, ltb, find?, filter_where, if◌then◌else◌,
}
use d_n_i_p.Tx.{Result, ok, err}
use d_n_i_p.Entitlement.Policy.{OrderItem}
use d_n_i_p.Checkout.Model.{is_live, Price, Product, Variant, CartItem, Line, CheckoutError}

-- MAX_SAFE_AMOUNT
abbrev pub max_safe_amount : ℕ
max_safe_amount = 2147483647

-- Number.MAX_SAFE_INTEGER
abbrev pub max_safe_integer : ℕ
max_safe_integer = 9007199254740991

-- `!Number.isSafeInteger(n) || n > MAX_SAFE_AMOUNT`, for an n that is not negative.
abbrev pub exceeds : ℕ → Bool
exceeds n = ltb max_safe_integer n || ltb max_safe_amount n

abbrev pub bad_unit : ℤ → Bool
bad_unit (pos n) = exceeds n
bad_unit (negsuc n) = true

-- `q < 1 || q > 999`
abbrev pub bad_quantity : ℤ → Bool
bad_quantity (pos zero) = true
bad_quantity (pos (suc n)) = ltb 999 (suc n)
bad_quantity (negsuc n) = true

abbrev pub only_one : List Price → Option Price
only_one (p ∷ []) = some p
only_one _ = none

-- The price of the item's relation, or else the variant's price of that id, or else, without an
-- id, the variant's only price in the currency.
unfoldable pub resolve_price : ℕ → CartItem → Variant → Option Price
resolve_price currency i v = elim i.price [
  | some p ↦ some p
  | none ↦ elim i.price_id [
    | some wanted ↦ find? (λ p. p.id == wanted) v.prices
    | none ↦ only_one (filter_where (λ p. p.currency == currency && p.is_active) v.prices)
  ]
]

-- What is wrong with a price, for a variant.
unfoldable pub price_error : ℕ → Variant → Price → Option CheckoutError
price_error currency v p =
    if not p.is_active
    then some CheckoutError.price_not_active
    else if not (p.currency == currency)
    then some CheckoutError.price_currency_mismatch
    else if not (p.variant_id == v.id)
    then some CheckoutError.price_of_other_variant
    else if bad_unit p.amount
    then some CheckoutError.unit_out_of_bounds
    else none

-- The snapshot of a variant's plan; `id` is the id that the database gives to the order item.
unfoldable pub snapshot : ℕ → Variant → Product → ℕ → OrderItem
snapshot id v p quantity = elim v.license_plan [
  | none ↦ record {
    id = id;
    product_id = p.id;
    variant_id = v.id;
    fulfillment_type = p.fulfillment_type;
    quantity = quantity;
    license_plan_id_at_purchase = none;
    is_lifetime = false;
    duration_days = none;
    duration_months = none;
    max_activations = none;
    updates_days = none;
    support_days = none;
    snapshot_version = some (pos 1);
  }
  | some plan ↦ record {
    id = id;
    product_id = p.id;
    variant_id = v.id;
    fulfillment_type = p.fulfillment_type;
    quantity = quantity;
    license_plan_id_at_purchase = some plan.id;
    is_lifetime = plan.is_lifetime;
    duration_days = plan.duration_days;
    duration_months = plan.duration_months;
    max_activations = some plan.max_activations;
    updates_days = plan.updates_days;
    support_days = plan.support_days;
    snapshot_version = some (pos 1);
  }
]

unfoldable pub make_line : ℕ → ℕ → Variant → Product → ℕ → ℕ → Line
unfolding snapshot
make_line currency id v p unit quantity = record {
  item = snapshot id v p quantity;
  unit_amount = unit;
  line_total_amount = unit * quantity;
  currency = currency;
}

-- An item whose price is fine; `subtotal` is that of the items before.
unfoldable pub add_line :
    ℕ → ℕ → ℕ → CartItem → Variant → Product → Price → Result CheckoutError (Line × ℕ)
unfolding make_line
add_line currency id subtotal i v d p =
    let line = make_line currency id v d (to_ℕ p.amount) (to_ℕ i.quantity) in
    if bad_quantity i.quantity
    then err CheckoutError.quantity_out_of_bounds
    else if exceeds line.line_total_amount
    then err CheckoutError.line_out_of_bounds
    else if exceeds (subtotal + line.line_total_amount)
    then err CheckoutError.subtotal_out_of_bounds
    else ok (line, subtotal + line.line_total_amount)

-- The active variant of an item, and its active product.
unfoldable pub live : CartItem → Result CheckoutError (Variant × Product)
live i = elim i.variant [
  | none ↦ err CheckoutError.variant_not_active
  | some v ↦
      if not (is_live v.status) then err CheckoutError.variant_not_active else elim v.product [
        | none ↦ err CheckoutError.product_not_active
        | some d ↦ if is_live d.status then ok (v, d) else err CheckoutError.product_not_active
      ]
]

unfoldable pub price_item : ℕ → ℕ → ℕ → CartItem → Result CheckoutError (Line × ℕ)
unfolding live resolve_price price_error add_line
price_item currency id subtotal i = elim (live i) [
  | err e ↦ err e
  | ok (v, d) ↦ elim (resolve_price currency i v) [
    | none ↦ err CheckoutError.price_not_found
    | some p ↦ elim (price_error currency v p) [
      | some e ↦ err e
      | none ↦ add_line currency id subtotal i v d p
    ]
  ]
]

-- `cart.items.map(...)`, with the ids of the order items from `next_id` on.
unfoldable pub price_items : ℕ → ℕ → ℕ → List CartItem → Result CheckoutError (List Line × ℕ)
unfolding price_item
price_items currency next_id subtotal [] = ok ([], subtotal)
price_items currency next_id subtotal (i ∷ is) = elim (price_item currency next_id subtotal i) [
  | err e ↦ err e
  | ok (line, sum) ↦ elim (price_items currency (suc next_id) sum is) [
    | err e ↦ err e
    | ok (lines, total) ↦ ok (line ∷ lines, total)
  ]
]
