-- ===== src/Payment/Spec/Refine.antt =====
-- Each operation of apps/api/src/modules/payments/payments.service.ts makes a move of the state
-- machine, or none.
use mathlib.Core.Option
use d_n_i_p.Prelude.{
  ℕ, ◌≡◌, ◌∙◌, refl, sym, ap, subst, if◌then◌else◌, ◌⊎◌, inl, inr, Bool, true, false, some, ◌==◌,
  arith, Bool-cases,
}
use d_n_i_p.Prelude.Rows.{find?-sound, find?-update}
use d_n_i_p.Tx.{Result, ok, err, transaction, transaction-of-ok, transaction-of-err, run-cases}
use d_n_i_p.Entitlement.Policy.{OrderStatus}
use d_n_i_p.Payment.Model.{
  PaymentStatus, is_pending, is_payable, Payment, PayOrder, EventType, Store, Texts, Evidence,
  PayError, Response, find_payment, find_order, end_payment, end_order, open_order,
  with_order_status,
}
use d_n_i_p.Payment.Events.{
  provider_of, add_event, log_action, add_order_paid, order_paid_row, event_tx, is_incomplete,
  catch_unique, process_authoritative_payment_event,
}
use d_n_i_p.Payment.Outcome.{
  status_of, ended, paid, Applied, to_end, to_paid, Outcome, seen, recorded, applied,
  event_tx-Outcome, catch_unique-store,
}
use d_n_i_p.Payment.Spec.{Move, stay, finish, pay, withdraw}
use d_n_i_p.Payment.Spec.Valid.{IsValid, keep-IsValid, end-IsValid, order-IsValid}
use d_n_i_p.Payment.Spec.Abstract.{view, end-payment_status, end-order_status, append-rows_for}

pub found_self :
    (i : ℕ) (s : Store) (p : Payment)
    → find_payment i s.payments ≡ some p
    → find_payment p.id s.payments ≡ some p
found_self i s p h =
    let same : (p.id == i) ≡ true = find?-sound (λ x. x.id == i) s.payments h in
    let e : p.id ≡ i = ground arith in subst (λ k. find_payment k s.payments ≡ some p) (sym e) h

-- An order stays, with its total and its currency.
abbrev pub Terms : Store → Store → Type 0
Terms s s' =
    (i : ℕ) (o : PayOrder)
    → find_order i s.orders ≡ some o
    → (o' : PayOrder) × (find_order i s'.orders ≡ some o')
      × (o'.total_amount ≡ o.total_amount)
      × (o'.currency ≡ o.currency)

pub same-Terms : (s s' : Store) → s'.orders ≡ s.orders → Terms s s'
same-Terms s s' e i o h = (o, ap (find_order i) e ∙ h, refl, refl)

end_order-Terms :
    (j : ℕ) (st : OrderStatus) (s s' : Store) → s'.orders ≡ (end_order j st s).orders → Terms s s'
unfolding end_order
end_order-Terms j st s s' e i o h =
    let seen =
      ap (find_order i) e
      ∙ find?-update (λ x. x.id == i) (open_order j) (with_order_status st) s.orders (λ x _. refl)
      ∙ ap (Option.map (λ x. if open_order j x then with_order_status st x else x)) h in
    elim (Bool-cases (open_order j o)) [
      | inl k ↦ (with_order_status st o, seen ∙ rw k refl, refl, refl)
      | inr k ↦ (o, seen ∙ rw k refl, refl, refl)
    ]

-- The stores are related by a move, the tables stay valid, and the orders keep their terms.
abbrev pub Sim : Store → Store → Type 0
Sim s s' = Move (view s) (view s') × (IsValid s → IsValid s') × Terms s s'

-- A pending payment that is found ends.
pub end-Sim :
    (s s' : Store) (p : Payment) (st : PaymentStatus)
    → find_payment p.id s.payments ≡ some p
    → is_pending p.status ≡ true
    → is_pending st ≡ false
    → s'.payments ≡ (end_payment p.id st s).payments
    → s'.orders ≡ s.orders
    → s'.outbox ≡ s.outbox
    → Sim s s'
unfolding view end_payment
end-Sim s s' p st h k final ep eo er = (
  finish p.id st (rw h (ground arith)) final
      (λ i. rw ep (end-payment_status p.id st s.payments p i h k)) (λ i. rw eo refl)
      (λ i. rw er refl),
  end-IsValid s s' p.id st final ep eo,
  same-Terms s s' eo,
)

pub stay-Sim :
    (s s' : Store)
    → s'.payments ≡ s.payments
    → s'.orders ≡ s.orders
    → s'.outbox ≡ s.outbox
    → Sim s s'
unfolding view
stay-Sim s s' ep eo er = (
  stay (λ i. rw ep refl) (λ i. rw eo refl) (λ i. rw er refl),
  keep-IsValid s s' ep eo,
  same-Terms s s' eo,
)

-- It ends by paying its order.
pub pay-Sim :
    (s s' : Store) (p : Payment) (o : PayOrder)
    → find_payment p.id s.payments ≡ some p
    → find_order p.order_id s.orders ≡ some o
    → is_pending p.status ≡ true
    → is_payable o.status ≡ true
    → s'.payments ≡ (end_payment p.id PaymentStatus.succeeded s).payments
    → s'.orders ≡ (end_order p.order_id OrderStatus.paid s).orders
    → s'.outbox ≡ (add_order_paid o p s).outbox
    → Sim s s'
unfolding view end_payment end_order add_order_paid
pay-Sim s s' p o hp ho kp ko ep eo er =
    let same : (o.id == p.order_id) ≡ true = find?-sound (λ x. x.id == p.order_id) s.orders ho in
    (
      pay p.id p.order_id (rw hp (ground arith)) (rw ho (ground arith))
          (λ i. rw ep (end-payment_status p.id PaymentStatus.succeeded s.payments p i hp kp))
          (λ i. rw eo (end-order_status p.order_id OrderStatus.paid s.orders o i ho ko))
          (λ i. rw er (ground (arith, append-rows_for s.outbox (order_paid_row o p) i))),
      order-IsValid s s' p.id p.order_id PaymentStatus.succeeded OrderStatus.paid refl ep eo,
      end_order-Terms p.order_id OrderStatus.paid s s' eo,
    )

pub withdraw-Sim :
    (s s' : Store) (p : Payment) (o : PayOrder)
    → find_payment p.id s.payments ≡ some p
    → find_order p.order_id s.orders ≡ some o
    → is_pending p.status ≡ true
    → is_payable o.status ≡ true
    → s'.payments ≡ (end_payment p.id PaymentStatus.cancelled s).payments
    → s'.orders ≡ (end_order p.order_id OrderStatus.cancelled s).orders
    → s'.outbox ≡ s.outbox
    → Sim s s'
unfolding view end_payment end_order
withdraw-Sim s s' p o hp ho kp ko ep eo er = (
  withdraw p.id p.order_id (rw hp (ground arith)) (rw ho (ground arith))
      (λ i. rw ep (end-payment_status p.id PaymentStatus.cancelled s.payments p i hp kp))
      (λ i. rw eo (end-order_status p.order_id OrderStatus.cancelled s.orders o i ho ko))
      (λ i. rw er refl),
  order-IsValid s s' p.id p.order_id PaymentStatus.cancelled OrderStatus.cancelled refl ep eo,
  end_order-Terms p.order_id OrderStatus.cancelled s s' eo,
)

final : (ty : EventType) → is_pending (status_of ty) ≡ false
final EventType.succeeded = refl
final EventType.failed = refl
final EventType.cancelled = refl

Applied-Sim :
    (t : Texts) (e : Evidence) (p : Payment) (o : PayOrder) (s : Store) (r : Response) (s' : Store)
    → find_payment p.id s.payments ≡ some p
    → find_order p.order_id s.orders ≡ some o
    → is_pending p.status ≡ true
    → Applied e p o (add_event (provider_of t e) e.event_type e.external_event_id p s) r s'
    → Sim s s'
unfolding add_event ended paid log_action end_payment end_order add_order_paid
Applied-Sim t e p o s r s' hp ho k (to_end h _ eq) =
    rw eq (end-Sim s _ p (status_of e.event_type) hp k (final e.event_type) refl refl refl)
Applied-Sim t e p o s r s' hp ho k (to_paid h _ _ eq) =
    rw eq (pay-Sim s _ p o hp ho k h refl refl refl)

pub Outcome-Sim :
    (t : Texts) (e : Evidence) (p : Payment) (o : PayOrder) (s : Store) (r : Response) (s' : Store)
    → find_payment e.payment_id s.payments ≡ some p
    → find_order p.order_id s.orders ≡ some o
    → Outcome t e p o s r s'
    → Sim s s'
unfolding add_event
Outcome-Sim t e p o s r s' hp ho (seen _ _ eq) = rw eq (stay-Sim s s refl refl refl)
Outcome-Sim t e p o s r s' hp ho (recorded _ _ eq) = rw eq (stay-Sim s _ refl refl refl)
Outcome-Sim t e p o s r s' hp ho (applied k _ a) =
    Applied-Sim t e p o s r s' (found_self e.payment_id s p hp) ho k a

-- The store after a transaction whose refusal by the index is caught.
pub caught-Sim :
    (i : ℕ) (s : Store) (m : Store → Result PayError (Response × Store))
    → ((r : Response) (s' : Store) → m s ≡ ok (r, s') → Sim s s')
    → Sim s (catch_unique i (transaction m s)).1
unfolding catch_unique
caught-Sim i s m k = rw (catch_unique-store i (transaction m s)) (go (run-cases (m s)))
  where
    go :
        ((e : PayError) × (m s ≡ err e)) ⊎ ((r : Response) × (s' : Store) × (m s ≡ ok (r, s')))
        → Sim s (transaction m s).1
    go (inl (e, h)) = rw (transaction-of-err m s e h) (stay-Sim s s refl refl refl)
    go (inr (r, s', h)) = rw (transaction-of-ok m s s' r h) (k r s' h)

pub event-Sim :
    (t : Texts) (raced : Bool) (e : Evidence) (s : Store)
    → Sim s (process_authoritative_payment_event t raced e s).1
unfolding process_authoritative_payment_event
event-Sim t raced e s = elim (Bool-cases (is_incomplete t e)) [
  | inl h ↦ rw (h) (stay-Sim s s refl refl refl)
  | inr h ↦ rw (h) (
      caught-Sim e.payment_id s (event_tx t raced e) (λ r s' ran.
        let (p, o, hp, ho, _, done) = event_tx-Outcome t raced e s r s' ran in
        Outcome-Sim t e p o s r s' hp ho done))
]
