-- ===== src/Payment/Paying.antt =====
-- When an event pays an order, in processAuthoritativePaymentEvent
-- (apps/api/src/modules/payments/payments.service.ts).
use d_n_i_p.Prelude.{◌+◌, ◌≡◌, ◌∙◌, refl, sym, ap, true, false, none, some, ◌==◌, arith, any}
use d_n_i_p.Prelude.Rows.{find?-sound}
use d_n_i_p.Tx.{ok, err, transaction-of-err}
use d_n_i_p.Entitlement.Policy.{OrderStatus}
use d_n_i_p.Payment.Model.{
  PaymentStatus, is_pending, is_payable, Payment, PayOrder, EventType, Store, Texts, Evidence,
  PayError, Message, find_payment, find_order, end_payment, end_order,
}
use d_n_i_p.Payment.Events.{
  provider_of, mismatch, same_event, add_event, log_action, add_order_paid, order_paid_row, answer,
  load, new_event, apply_event, event_tx, is_incomplete, catch_unique,
  process_authoritative_payment_event,
}
use d_n_i_p.Payment.Outcome.{found-open, found-payable, apply_event-paid, apply_event-refused, paid}
use d_n_i_p.Payment.Repeat.{process-of-ok, process-run}
use d_n_i_p.Payment.Spec.Abstract.{
  payment_status, order_status, rows_for, end-payment_status, end-order_status, append-rows_for,
}
use d_n_i_p.Payment.Spec.Refine.{found_self}

-- The event is complete, not stored yet, and agrees with the pending payment that it names.
pub record Fits (t : Texts) (e : Evidence) (p : Payment) (o : PayOrder) (s : Store) : Type 0 where
  pub complete : is_incomplete t e ≡ false
  pub payment_found : find_payment e.payment_id s.payments ≡ some p
  pub order_found : find_order p.order_id s.orders ≡ some o
  pub agrees : mismatch t e p ≡ none
  pub fresh : any (same_event (provider_of t e) e.external_event_id) s.events ≡ false
  pub pending : is_pending p.status ≡ true

event_tx-applied :
    (t : Texts) (e : Evidence) (p : Payment) (o : PayOrder) (s : Store)
    → Fits t e p o s
    → event_tx t false e s
      ≡ apply_event e.event_type e.external_event_id p o
          (add_event (provider_of t e) e.event_type e.external_event_id p s)
unfolding event_tx load new_event
event_tx-applied t e p o s f =
    ground (arith, f.payment_found, f.order_found, f.agrees, f.fresh, f.pending)

paid-run :
    (t : Texts) (e : Evidence) (p : Payment) (o : PayOrder) (s : Store)
    → Fits t e p o s
    → e.event_type ≡ EventType.succeeded
    → is_payable o.status ≡ true
    → process_authoritative_payment_event t false e s ≡ (
      ok (answer false PaymentStatus.succeeded OrderStatus.paid Message.processed),
      paid e.external_event_id p o
          (add_event (provider_of t e) e.event_type e.external_event_id p s),
    )
unfolding add_event
paid-run t e p o s f ty k =
    let s1 = add_event (provider_of t e) e.event_type e.external_event_id p s in
    let run =
      apply_event-paid e.external_event_id p o s1
        (found-open e.payment_id s p f.payment_found f.pending) k
        (found-payable p.order_id s o f.order_found k) in
    let applied = event_tx-applied t e p o s f in
    process-of-ok t false e s _ _ f.complete (applied ∙ rw (sym ty) at run)

-- A success event that fits a pending payment of an order that is to be paid is processed: the
-- payment is SUCCEEDED, the order PAID, and one ORDER_PAID row more is written for it.
pub process_pays :
    (t : Texts) (e : Evidence) (p : Payment) (o : PayOrder) (s : Store)
    → Fits t e p o s
    → e.event_type ≡ EventType.succeeded
    → is_payable o.status ≡ true
    → ((process_authoritative_payment_event t false e s).0
        ≡ ok (answer false PaymentStatus.succeeded OrderStatus.paid Message.processed))
      × (payment_status (process_authoritative_payment_event t false e s).1.payments p.id
          ≡ some PaymentStatus.succeeded)
      × (order_status (process_authoritative_payment_event t false e s).1.orders p.order_id
          ≡ some OrderStatus.paid)
      × (rows_for (process_authoritative_payment_event t false e s).1.outbox p.order_id
          ≡ rows_for s.outbox p.order_id + 1)
unfolding paid add_event log_action end_payment end_order add_order_paid
process_pays t e p o s f ty k =
    let same : (o.id == p.order_id) ≡ true =
      find?-sound (λ x. x.id == p.order_id) s.orders f.order_found in
    rw (paid-run t e p o s f ty k) (
      refl,
      end-payment_status p.id PaymentStatus.succeeded s.payments p p.id
            (found_self e.payment_id s p f.payment_found) f.pending
          ∙ ground arith,
      end-order_status p.order_id OrderStatus.paid s.orders o p.order_id f.order_found k
          ∙ ground arith,
      append-rows_for s.outbox (order_paid_row o p) p.order_id ∙ ground arith,
    )

-- A success event that fits a pending payment of an order that is CANCELLED is refused, and
-- nothing is stored, not even the event.
pub process_cancelled :
    (t : Texts) (e : Evidence) (p : Payment) (o : PayOrder) (s : Store)
    → Fits t e p o s
    → e.event_type ≡ EventType.succeeded
    → o.status ≡ OrderStatus.cancelled
    → process_authoritative_payment_event t false e s
      ≡ (err (PayError.order_conflict p.order_id OrderStatus.cancelled), s)
unfolding add_event catch_unique
process_cancelled t e p o s f ty k =
    let s1 = add_event (provider_of t e) e.event_type e.external_event_id p s in
    let run =
      apply_event-refused e.external_event_id p o s1
        (found-open e.payment_id s p f.payment_found f.pending) (rw k refl) (rw k refl)
      ∙ ap (λ st. err (PayError.order_conflict p.order_id st)) k in
    let all = event_tx-applied t e p o s f ∙ rw (sym ty) at run in
    process-run t false e s f.complete ∙ rw (transaction-of-err (event_tx t false e) s _ all) refl
