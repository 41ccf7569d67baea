-- ===== src/Checkout/Totals.antt =====
-- The amounts of a checkout (apps/api/src/modules/orders/orders.service.ts).
use d_n_i_p.Prelude.{
  ℕ, zero, suc, ◌+◌, ◌*◌, ◌≤◌, ◌≡◌, refl, inl, inr, ℤ, pos, negsuc, to_ℕ, false, none, some, List,
  [], ◌∷◌, length, All, arith, Bool-cases, Option-cases,
}
use d_n_i_p.Tx.{ok, result-cases}
use d_n_i_p.Checkout.Model.{Price, Product, Variant, CartItem, Line}
use d_n_i_p.Checkout.Pricing.{
  max_safe_amount, exceeds, bad_unit, bad_quantity, resolve_price, price_error, snapshot, make_line,
  add_line, live, price_item, price_items,
}

abbrev pub sum_of : List Line → ℕ
sum_of [] = 0
sum_of (l ∷ ls) = l.line_total_amount + sum_of ls

-- A line whose amounts fit 32 bits, of a quantity from 1 to 999.
pub record IsBounded (l : Line) : Type 0 where
  pub unit : l.unit_amount ≤ max_safe_amount
  pub some_of_it : 1 ≤ l.item.quantity
  pub not_too_many : l.item.quantity ≤ 999
  pub product : l.line_total_amount ≡ l.unit_amount * l.item.quantity
  pub line : l.line_total_amount ≤ max_safe_amount

-- What an item that is priced has come from.
pub data Priced (currency id subtotal : ℕ) (i : CartItem) (l : Line) (sum : ℕ) : Type 0 where
  priced :
      (v : Variant) (d : Product) (p : Price)
      → i.variant ≡ some v
      → resolve_price currency i v ≡ some p
      → price_error currency v p ≡ none
      → l ≡ make_line currency id v d (to_ℕ p.amount) (to_ℕ i.quantity)
      → bad_quantity i.quantity ≡ false
      → exceeds l.line_total_amount ≡ false
      → exceeds sum ≡ false
      → sum ≡ subtotal + l.line_total_amount
      → Priced currency id subtotal i l sum

live-variant : (i : CartItem) (v : Variant) (d : Product) → live i ≡ ok (v, d) → i.variant ≡ some v
unfolding live
live-variant i v d h = ground arith

pub price_item-Priced :
    (currency id subtotal : ℕ) (i : CartItem) (l : Line) (sum : ℕ)
    → price_item currency id subtotal i ≡ ok (l, sum)
    → Priced currency id subtotal i l sum
unfolding price_item add_line
price_item-Priced currency id subtotal i l sum h = elim (result-cases (live i)) [
  | inl (e, f) ↦ absurd (ground arith)
  | inr ((v, d), f) ↦ elim (Option-cases (resolve_price currency i v)) [
    | inl k ↦ absurd (ground arith)
    | inr (p, k) ↦ elim (Option-cases (price_error currency v p)) [
      | inr (e, m) ↦ absurd (ground arith)
      | inl m ↦ elim (Bool-cases (bad_quantity i.quantity)) [
        | inl b ↦ absurd (ground arith)
        | inr b ↦
            let line = make_line currency id v d (to_ℕ p.amount) (to_ℕ i.quantity) in
            elim (Bool-cases (exceeds line.line_total_amount)) [
              | inl c ↦ absurd (ground arith)
              | inr c ↦ elim (Bool-cases (exceeds (subtotal + line.line_total_amount))) [
                | inl x ↦ absurd (ground arith)
                | inr x ↦
                    let same : l ≡ line = ground arith in
                    let total : sum ≡ subtotal + line.line_total_amount = ground arith in
                    priced v d p (live-variant i v d f) k m same b (rw same c) (rw total x)
                      (rw (total, same) refl)
              ]
            ]
      ]
    ]
  ]
]

exceeds-le : (n : ℕ) → exceeds n ≡ false → n ≤ max_safe_amount
exceeds-le n h = ground arith

unit-le :
    (currency : ℕ) (v : Variant) (p : Price)
    → price_error currency v p ≡ none
    → to_ℕ p.amount ≤ max_safe_amount
unfolding price_error
unit-le currency v p h = elim (Bool-cases (bad_unit p.amount)) [
  | inl b ↦ absurd (ground arith)
  | inr b ↦ amount-le p.amount b
]
  where
    amount-le : (a : ℤ) → bad_unit a ≡ false → to_ℕ a ≤ max_safe_amount
    amount-le (pos n) b = exceeds-le n b
    amount-le (negsuc n) b = absurd (ground arith)

quantity-bounds : (q : ℤ) → bad_quantity q ≡ false → (1 ≤ to_ℕ q) × (to_ℕ q ≤ 999)
quantity-bounds (pos zero) h = absurd (ground arith)
quantity-bounds (pos (suc n)) h = (ground arith, ground arith)
quantity-bounds (negsuc n) h = absurd (ground arith)

snapshot-quantity : (id : ℕ) (v : Variant) (d : Product) (n : ℕ) → (snapshot id v d n).quantity ≡ n
unfolding snapshot
snapshot-quantity id v d n = elim (Option-cases v.license_plan) [
  | inl e ↦ rw (snapshot, e) refl
  | inr (plan, e) ↦ rw (snapshot, e) refl
]

Priced-IsBounded :
    (currency id subtotal : ℕ) (i : CartItem) (l : Line) (sum : ℕ)
    → Priced currency id subtotal i l sum
    → IsBounded l
unfolding make_line
Priced-IsBounded currency id subtotal i l sum (priced v d p _ _ good eq q line _ _) =
    let quantity = snapshot-quantity id v d (to_ℕ i.quantity) in
    let (one, most) = quantity-bounds i.quantity q in
    record {
      unit = rw eq (unit-le currency v p good);
      some_of_it = rw (eq, quantity) one;
      not_too_many = rw (eq, quantity) most;
      product = rw (eq, quantity) refl;
      line = exceeds-le l.line_total_amount line;
    }

pub price_items-cons :
    (currency next_id subtotal : ℕ) (i : CartItem) (is : List CartItem) (lines : List Line)
    (total : ℕ)
    → price_items currency next_id subtotal (i ∷ is) ≡ ok (lines, total)
    → (l : Line) × (sum : ℕ) × (rest : List Line) × (price_item currency next_id subtotal i
        ≡ ok (l, sum))
      × (price_items currency (suc next_id) sum is ≡ ok (rest, total))
      × (lines ≡ l ∷ rest)
unfolding price_items
price_items-cons currency next_id subtotal i is lines total h =
    elim (result-cases (price_item currency next_id subtotal i)) [
      | inl (e, f) ↦ absurd (ground arith)
      | inr ((l, sum), f) ↦ elim (result-cases (price_items currency (suc next_id) sum is)) [
        | inl (e, g) ↦ absurd (ground arith)
        | inr ((rest, t), g) ↦
            let same : t ≡ total = ground arith in (l, sum, rest, f, rw same at g, ground arith)
      ]
    ]

pub price_items-totals :
    (currency next_id subtotal : ℕ) (is : List CartItem) (lines : List Line) (total : ℕ)
    → price_items currency next_id subtotal is ≡ ok (lines, total)
    → subtotal ≤ max_safe_amount
    → (total ≡ subtotal + sum_of lines)
      × (total ≤ max_safe_amount)
      × (length lines ≡ length is)
      × All IsBounded lines
unfolding price_items
price_items-totals currency next_id subtotal [] lines total h b =
    let none_of : lines ≡ [] = ground arith in
    let same : total ≡ subtotal = ground arith in rw (none_of, same) (omega arith, b, refl, tt)
price_items-totals currency next_id subtotal (i ∷ is) lines total h b =
    let (l, sum, rest, f, g, eq) = price_items-cons currency next_id subtotal i is lines total h in
    let step = price_item-Priced currency next_id subtotal i l sum f in
    let (fits, eq_sum) = sum-fits step in
    let (t, m, n, all) = price_items-totals currency (suc next_id) sum is rest total g fits in
    rw eq
      (omega arith, m, omega arith, (Priced-IsBounded currency next_id subtotal i l sum step, all))
  where
    sum-fits :
        {l : Line} {sum : ℕ}
        → Priced currency next_id subtotal i l sum
        → (sum ≤ max_safe_amount) × (sum ≡ subtotal + l.line_total_amount)
    sum-fits {l} {sum} (priced _ _ _ _ _ _ _ _ _ x e) = (exceeds-le sum x, e)
