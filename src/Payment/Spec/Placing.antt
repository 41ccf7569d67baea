-- ===== src/Payment/Spec/Placing.antt =====
-- An order that a checkout has placed, with its first payment
-- (apps/api/src/modules/orders/orders.service.ts), as a move of the state machine.
use d_n_i_p.Prelude.{
  ℕ, ◌≡◌, ◌≢◌, ◌∙◌, refl, sym, subst, inl, inr, none, List, [], ◌∷◌, ◌++◌, ◌==◌, arith, All, Unique,
  Bool-cases, Option-cases,
}
use d_n_i_p.Prelude.Rows.{
  Unique-append, All-of_Member, find?-none-Member, All-map_pred, All-append, find?-append_none,
  find?-append_some, count-append, count-All-false,
}
use d_n_i_p.Entitlement.Policy.{OrderStatus}
use d_n_i_p.Payment.Model.{PaymentStatus, Payment, PayOrder, Store, find_payment, find_order}
use d_n_i_p.Payment.Sessions.{pending_of}
use d_n_i_p.Payment.Spec.{place}
use d_n_i_p.Payment.Spec.Abstract.{view, append-payment_status, append-order_status}
use d_n_i_p.Payment.Spec.Valid.{IsPricedBy, IsSingle}
use d_n_i_p.Payment.Spec.Refine.{Sim}

-- A new order that waits for its payment, and a payment that is of its total; the ids are new, and
-- no payment refers to the order yet, as the foreign key of payments ensures.
pub record Fresh (o : PayOrder) (p : Payment) (s : Store) : Type 0 where
  pub new_order : find_order o.id s.orders ≡ none
  pub new_payment : find_payment p.id s.payments ≡ none
  pub unreferred : All (λ x. x.order_id ≢ o.id) s.payments
  pub payable : o.status ≡ OrderStatus.pending_payment
  pub pending : p.status ≡ PaymentStatus.pending
  pub of_order : p.order_id ≡ o.id
  pub of_total : p.amount ≡ o.total_amount
  pub of_currency : p.currency ≡ o.currency

unfoldable pub add_placed : PayOrder → Payment → Store → Store
add_placed o p s = record s { orders = s.orders ++ o ∷ []; payments = s.payments ++ p ∷ [] }

placed-keyed :
    (o : PayOrder) (os : List PayOrder)
    → find_order o.id os ≡ none
    → Unique PayOrder.id os
    → Unique PayOrder.id (os ++ o ∷ [])
placed-keyed o os h u = Unique-append PayOrder.id os o u (
    All-of_Member _ os
      (λ x m same. absurd (ground (arith, find?-none-Member (λ y. y.id == o.id) os x h m))))

placed-IsSingle :
    (o : ℕ) (ps : List Payment) (x : Payment)
    → All (λ y. y.order_id ≢ o) ps
    → x.order_id ≡ o
    → IsSingle ps
    → IsSingle (ps ++ x ∷ [])
placed-IsSingle o ps x free same k i = elim (Bool-cases (x.order_id == i)) [
  | inl e ↦
      let nobody = count-All-false (pending_of i) ps (
        All-map_pred (λ y. y.order_id ≢ o) _ ps
          (λ y ne. elim (Bool-cases (y.order_id == i)) [
            | inl b ↦ absurd (ne (ground arith))
            | inr b ↦ rw b refl
          ])
          free) in
      ground (arith, nobody, count-append (pending_of i) ps (x ∷ []))
  | inr e ↦ ground (arith, k i, count-append (pending_of i) ps (x ∷ []))
]

placed-IsPriced :
    (o : PayOrder) (os : List PayOrder) (ps : List Payment)
    → All (λ y. y.order_id ≢ o.id) ps
    → All (IsPricedBy os) ps
    → All (IsPricedBy (os ++ o ∷ [])) ps
placed-IsPriced o os [] free h = tt
placed-IsPriced o os (y ∷ ys) free h = (
  λ o' e. elim (Option-cases (find_order y.order_id os)) [
    | inr (x, f) ↦
        let same = find?-append_some (λ x. x.id == y.order_id) os (o ∷ []) f in
        h.0 o' (f ∙ ground arith)
    | inl f ↦
        let after = find?-append_none (λ x. x.id == y.order_id) os (o ∷ []) f in
        absurd (free.0 (ground arith))
  ],
  placed-IsPriced o os ys free.1 h.1,
)

pub placed-Sim : (o : PayOrder) (p : Payment) (s : Store) → Fresh o p s → Sim s (add_placed o p s)
unfolding add_placed view
placed-Sim o p s f = (
  place p.id o.id (rw f.new_payment refl) (rw f.new_order refl)
      (λ i. append-payment_status s.payments p i f.new_payment ∙ rw f.pending refl)
      (λ i. append-order_status s.orders o i f.new_order ∙ rw f.payable refl) (λ i. refl),
  λ v. record {
    keyed = placed-keyed o s.orders f.new_order v.keyed;
    single = placed-IsSingle o.id s.payments p f.unreferred f.of_order v.single;
    priced =
        All-append _ s.payments p (placed-IsPriced o s.orders s.payments f.unreferred v.priced)
          (λ o' e.
            let new = subst (λ j. find_order j s.orders ≡ none) (sym f.of_order) f.new_order in
            let here = find?-append_none (λ x. x.id == p.order_id) s.orders (o ∷ []) new in
            let same : o' ≡ o = ground (arith, f.of_order) in rw same (f.of_total, f.of_currency));
  },
  λ i x h. (x, find?-append_some (λ y. y.id == i) s.orders (o ∷ []) h, refl, refl),
)
