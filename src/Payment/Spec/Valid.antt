-- ===== src/Payment/Spec/Valid.antt =====
-- What the tables of the payments keep besides the statuses: the ids of orders are different, an
-- order has one pending payment at most, and a payment is of its order's total
-- (apps/api/src/modules/payments/payments.service.ts).
use d_n_i_p.Prelude.{
  ℕ, ◌≤◌, ◌≡◌, refl, subst, inl, inr, Bool, false, none, some, List, [], ◌∷◌, ◌++◌, ◌==◌, arith,
  find?, count_where, update_where, All, Unique, Bool-cases, Option-cases,
}
use d_n_i_p.Prelude.Rows.{
  find?-update, All-update, All-map_pred, All-append, Unique-update, count-update_le, count-append,
  count-find?-none,
}
use d_n_i_p.Entitlement.Policy.{OrderStatus}
use d_n_i_p.Payment.Model.{
  PaymentStatus, is_pending, Payment, PayOrder, Store, find_order, open_payment, open_order,
  with_status, with_order_status,
}
use d_n_i_p.Payment.Sessions.{pending_of, unclaimed, with_session}

abbrev pub IsPricedBy : List PayOrder → Payment → Type 0
IsPricedBy os p =
    (o : PayOrder)
    → find_order p.order_id os ≡ some o
    → (p.amount ≡ o.total_amount) × (p.currency ≡ o.currency)

abbrev pub IsSingle : List Payment → Type 0
IsSingle ps = (i : ℕ) → count_where (pending_of i) ps ≤ 1

pub record IsValid (s : Store) : Type 0 where
  pub keyed : Unique PayOrder.id s.orders
  pub single : IsSingle s.payments
  pub priced : All (IsPricedBy s.orders) s.payments

pub end-IsSingle :
    (q : Payment → Bool) (st : PaymentStatus) (ps : List Payment)
    → is_pending st ≡ false
    → IsSingle ps
    → IsSingle (update_where q (with_status st) ps)
end-IsSingle q st ps h k i =
    omega (arith, k i, count-update_le (pending_of i) q (with_status st) ps (λ x _ e. ground arith))

pub claim-IsSingle :
    (j a b : ℕ) (ps : List Payment)
    → IsSingle ps
    → IsSingle (update_where (unclaimed j) (with_session a b) ps)
claim-IsSingle j a b ps k i = omega (
  arith,
  k i,
  count-update_le (pending_of i) (unclaimed j) (with_session a b) ps (λ x _ e. ground arith),
)

pub add-IsSingle :
    (ps : List Payment) (p : Payment)
    → find? (pending_of p.order_id) ps ≡ none
    → IsSingle ps
    → IsSingle (ps ++ p ∷ [])
add-IsSingle ps p h k i = elim (Bool-cases (p.order_id == i)) [
  | inl e ↦
      let same : p.order_id ≡ i = ground arith in
      let zero : count_where (pending_of i) ps ≡ 0 =
        subst (λ j. count_where (pending_of j) ps ≡ 0) same
          (count-find?-none (pending_of p.order_id) ps h) in
      ground (arith, zero, count-append (pending_of i) ps (p ∷ []))
  | inr e ↦ ground (arith, k i, count-append (pending_of i) ps (p ∷ []))
]

pub end-IsPriced :
    (os : List PayOrder) (q : Payment → Bool) (st : PaymentStatus) (ps : List Payment)
    → All (IsPricedBy os) ps
    → All (IsPricedBy os) (update_where q (with_status st) ps)
end-IsPriced os q st ps h = All-update (IsPricedBy os) q (with_status st) ps (λ x _ k. k) h

pub claim-IsPriced :
    (os : List PayOrder) (j a b : ℕ) (ps : List Payment)
    → All (IsPricedBy os) ps
    → All (IsPricedBy os) (update_where (unclaimed j) (with_session a b) ps)
claim-IsPriced os j a b ps h =
    All-update (IsPricedBy os) (unclaimed j) (with_session a b) ps (λ x _ k. k) h

pub orders-IsPriced :
    (os : List PayOrder) (q : ℕ) (st : OrderStatus) (ps : List Payment)
    → All (IsPricedBy os) ps
    → All (IsPricedBy (update_where (open_order q) (with_order_status st) os)) ps
orders-IsPriced os q st ps h =
    All-map_pred (IsPricedBy os) _ ps
      (λ p k o e.
        let seen =
          find?-update (λ x. x.id == p.order_id) (open_order q) (with_order_status st) os
            (λ x _. refl) in
        elim (Option-cases (find_order p.order_id os)) [
          | inl f ↦ absurd (ground arith)
          | inr (o', f) ↦ let (a, c) = k o' f in ground arith
        ])
      h

pub add-IsPriced :
    (os : List PayOrder) (ps : List Payment) (p : Payment) (o : PayOrder)
    → find_order p.order_id os ≡ some o
    → p.amount ≡ o.total_amount
    → p.currency ≡ o.currency
    → All (IsPricedBy os) ps
    → All (IsPricedBy os) (ps ++ p ∷ [])
add-IsPriced os ps p o h a c k =
    All-append (IsPricedBy os) ps p k (λ o' e. let same : o' ≡ o = ground arith in rw same (a, c))

pub keep-IsValid :
    (s s' : Store) → s'.payments ≡ s.payments → s'.orders ≡ s.orders → IsValid s → IsValid s'
keep-IsValid s s' ep eo v = record {
  keyed = rw eo v.keyed;
  single = rw ep v.single;
  priced = rw (ep, eo) v.priced;
}

pub end-IsValid :
    (s s' : Store) (i : ℕ) (st : PaymentStatus)
    → is_pending st ≡ false
    → s'.payments ≡ update_where (open_payment i) (with_status st) s.payments
    → s'.orders ≡ s.orders
    → IsValid s
    → IsValid s'
end-IsValid s s' i st h ep eo v = record {
  keyed = rw eo v.keyed;
  single = rw ep (end-IsSingle (open_payment i) st s.payments h v.single);
  priced = rw (ep, eo) (end-IsPriced s.orders (open_payment i) st s.payments v.priced);
}

pub order-IsValid :
    (s s' : Store) (i j : ℕ) (st : PaymentStatus) (ost : OrderStatus)
    → is_pending st ≡ false
    → s'.payments ≡ update_where (open_payment i) (with_status st) s.payments
    → s'.orders ≡ update_where (open_order j) (with_order_status ost) s.orders
    → IsValid s
    → IsValid s'
order-IsValid s s' i j st ost h ep eo v = record {
  keyed = rw eo (
      Unique-update PayOrder.id (open_order j) (with_order_status ost) s.orders (λ _. refl)
        v.keyed);
  single = rw ep (end-IsSingle (open_payment i) st s.payments h v.single);
  priced =
      rw (ep, eo)
        (orders-IsPriced s.orders j ost (update_where (open_payment i) (with_status st) s.payments)
          (end-IsPriced s.orders (open_payment i) st s.payments v.priced));
}
