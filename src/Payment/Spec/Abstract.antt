-- ===== src/Payment/Spec/Abstract.antt =====
-- The state machine's view of the tables, and what the writes of
-- apps/api/src/modules/payments/payments.service.ts do to it.
use mathlib.Core.Option
use d_n_i_p.Prelude.{
  ℕ, ◌+◌, ◌≡◌, refl, inl, inr, true, Option, none, some, List, [], ◌∷◌, ◌++◌, ◌==◌, arith,
  count_where, update_where, Bool-cases, Option-cases, if◌then◌else◌,
}
use d_n_i_p.Prelude.Rows.{
  find?-sound, find?-update, find?-append_some, find?-append_none, count-append,
}
use d_n_i_p.Entitlement.Policy.{OrderStatus}
use d_n_i_p.Payment.Model.{
  PaymentStatus, is_pending, is_payable, Payment, PayOrder, OrderPaid, Store, find_payment,
  find_order, open_payment, open_order, with_status, with_order_status,
}
use d_n_i_p.Payment.Spec.{View, set}

abbrev pub payment_status : List Payment → ℕ → Option PaymentStatus
payment_status ps i = Option.map (λ (p : Payment). p.status) (find_payment i ps)

abbrev pub order_status : List PayOrder → ℕ → Option OrderStatus
order_status os i = Option.map (λ (o : PayOrder). o.status) (find_order i os)

abbrev pub rows_for : List OrderPaid → ℕ → ℕ
rows_for rs i = count_where (λ r. r.order_id == i) rs

unfoldable pub view : Store → View
view s = record {
  payment = payment_status s.payments;
  order = order_status s.orders;
  paid_rows = rows_for s.outbox;
}

pub end-payment_status :
    (q : ℕ) (st : PaymentStatus) (ps : List Payment) (p : Payment) (i : ℕ)
    → find_payment q ps ≡ some p
    → is_pending p.status ≡ true
    → payment_status (update_where (open_payment q) (with_status st) ps) i
      ≡ set q st (payment_status ps) i
end-payment_status q st ps p i h k =
    let seen = find?-update (λ x. x.id == i) (open_payment q) (with_status st) ps (λ x _. refl) in
    let same : (p.id == q) ≡ true = find?-sound (λ x. x.id == q) ps h in
    elim (Option-cases (find_payment i ps)) [
      | inl e ↦ elim (Bool-cases (i == q)) [
        | inl b ↦ let at_q : i ≡ q = ground arith in absurd (let e' = rw at_q at e in ground arith)
        | inr b ↦ rw (seen, e, b) refl
      ]
      | inr (x, e) ↦
          let at_i : (x.id == i) ≡ true = find?-sound (λ x. x.id == i) ps e in
          elim (Bool-cases (i == q)) [
            | inl b ↦
                let at_q : i ≡ q = ground arith in
                let twin : x ≡ p = let e' = rw at_q at e in ground arith in
                rw (seen, e, b, twin) (ground arith)
            | inr b ↦ rw (seen, e, b) (ground arith)
          ]
    ]

pub end-order_status :
    (q : ℕ) (st : OrderStatus) (os : List PayOrder) (o : PayOrder) (i : ℕ)
    → find_order q os ≡ some o
    → is_payable o.status ≡ true
    → order_status (update_where (open_order q) (with_order_status st) os) i
      ≡ set q st (order_status os) i
end-order_status q st os o i h k =
    let seen =
      find?-update (λ x. x.id == i) (open_order q) (with_order_status st) os (λ x _. refl) in
    let same : (o.id == q) ≡ true = find?-sound (λ x. x.id == q) os h in
    elim (Option-cases (find_order i os)) [
      | inl e ↦ elim (Bool-cases (i == q)) [
        | inl b ↦ let at_q : i ≡ q = ground arith in absurd (let e' = rw at_q at e in ground arith)
        | inr b ↦ rw (seen, e, b) refl
      ]
      | inr (x, e) ↦
          let at_i : (x.id == i) ≡ true = find?-sound (λ x. x.id == i) os e in
          elim (Bool-cases (i == q)) [
            | inl b ↦
                let at_q : i ≡ q = ground arith in
                let twin : x ≡ o = let e' = rw at_q at e in ground arith in
                rw (seen, e, b, twin) (ground arith)
            | inr b ↦ rw (seen, e, b) (ground arith)
          ]
    ]

pub append-rows_for :
    (rs : List OrderPaid) (r : OrderPaid) (i : ℕ)
    → rows_for (rs ++ r ∷ []) i ≡ rows_for rs i + (if r.order_id == i then 1 else 0)
append-rows_for rs r i = omega (arith, count-append (λ r. r.order_id == i) rs (r ∷ []))

pub append-payment_status :
    (ps : List Payment) (p : Payment) (i : ℕ)
    → find_payment p.id ps ≡ none
    → payment_status (ps ++ p ∷ []) i ≡ set p.id p.status (payment_status ps) i
append-payment_status ps p i h = elim (Option-cases (find_payment i ps)) [
  | inl e ↦ rw (find?-append_none (λ x. x.id == i) ps (p ∷ []) e, e) (ground arith)
  | inr (x, e) ↦ elim (Bool-cases (i == p.id)) [
    | inl b ↦ let at_q : i ≡ p.id = ground arith in absurd (let e' = rw at_q at e in ground arith)
    | inr b ↦ rw (find?-append_some (λ x. x.id == i) ps (p ∷ []) e, e, b) refl
  ]
]

pub append-order_status :
    (os : List PayOrder) (o : PayOrder) (i : ℕ)
    → find_order o.id os ≡ none
    → order_status (os ++ o ∷ []) i ≡ set o.id o.status (order_status os) i
append-order_status os o i h = elim (Option-cases (find_order i os)) [
  | inl e ↦ rw (find?-append_none (λ x. x.id == i) os (o ∷ []) e, e) (ground arith)
  | inr (x, e) ↦ elim (Bool-cases (i == o.id)) [
    | inl b ↦ let at_q : i ≡ o.id = ground arith in absurd (let e' = rw at_q at e in ground arith)
    | inr b ↦ rw (find?-append_some (λ x. x.id == i) os (o ∷ []) e, e, b) refl
  ]
]
