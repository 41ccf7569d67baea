-- ===== src/Payment/Spec/Callbacks.antt =====
-- The older callback, the sessions and the reconciliation of
-- apps/api/src/modules/payments/payments.service.ts as moves of the state machine.
use d_n_i_p.Prelude.{
  ℕ, ◌≡◌, refl, inl, inr, Bool, true, false, some, ◌==◌, arith, find?, Bool-cases, Option-cases,
}
use d_n_i_p.Prelude.Rows.{count-of_key_zero, update_where-none}
use d_n_i_p.Tx.{ok, run-cases}
use d_n_i_p.Entitlement.Policy.{OrderStatus}
use d_n_i_p.Payment.Model.{
  PaymentStatus, is_pending, is_payable, Payment, PayOrder, EventType, Store, Texts, PayError,
  Response, find_payment, find_order, end_payment, end_order, open_order, open_orders,
  with_order_status,
}
use d_n_i_p.Payment.Events.{same_event, add_event, log_action, add_order_paid, load}
use d_n_i_p.Payment.Callback.{
  Callback, callback_succeeded, callback_failed, callback_cancelled, apply_callback, callback_tx,
  process_test_callback,
}
use d_n_i_p.Payment.Outcome.{found-open}
use d_n_i_p.Payment.Spec.Abstract.{view}
use d_n_i_p.Payment.Spec.Valid.{IsValid, keep-IsValid}
use d_n_i_p.Payment.Spec.Refine.{
  Sim, found_self, stay-Sim, end-Sim, pay-Sim, withdraw-Sim, caught-Sim,
}

-- An order that is not payable has no open row.
open_orders-closed :
    (i : ℕ) (s : Store) (o : PayOrder)
    → IsValid s
    → find_order i s.orders ≡ some o
    → is_payable o.status ≡ false
    → open_orders i s ≡ 0
open_orders-closed i s o u h k =
    count-of_key_zero PayOrder.id (open_order i) i s.orders o u.keyed h (ground arith)
      (λ x e. ground arith)

succeeded-Sim :
    (x : ℕ) (p : Payment) (o : PayOrder) (s : Store) (r : Response) (s' : Store)
    → IsValid s
    → find_payment p.id s.payments ≡ some p
    → find_order p.order_id s.orders ≡ some o
    → is_pending p.status ≡ true
    → callback_succeeded x p o s ≡ ok (r, s')
    → Sim s s'
unfolding callback_succeeded end_payment end_order add_order_paid log_action
succeeded-Sim x p o s r s' u hp ho k h =
    let free = found-open p.id s p hp k in
    elim (Bool-cases (is_payable o.status)) [
      | inr c ↦ let closed = open_orders-closed p.order_id s o u ho c in absurd (ground arith)
      | inl c ↦ elim (Bool-cases (open_orders p.order_id s == 0)) [
        | inl z ↦ absurd (ground arith)
        | inr z ↦ pay-Sim s s' p o hp ho k c (ground arith) (ground arith) (ground arith)
      ]
    ]

failed-Sim :
    (x : ℕ) (p : Payment) (o : PayOrder) (s : Store) (r : Response) (s' : Store)
    → find_payment p.id s.payments ≡ some p
    → is_pending p.status ≡ true
    → callback_failed x p o s ≡ ok (r, s')
    → Sim s s'
unfolding callback_failed end_payment log_action
failed-Sim x p o s r s' hp k h =
    let free = found-open p.id s p hp k in
    end-Sim s s' p PaymentStatus.failed hp k refl (ground arith) (ground arith) (ground arith)

cancelled-Sim :
    (x : ℕ) (p : Payment) (o : PayOrder) (s : Store) (r : Response) (s' : Store)
    → IsValid s
    → find_payment p.id s.payments ≡ some p
    → find_order p.order_id s.orders ≡ some o
    → is_pending p.status ≡ true
    → callback_cancelled x p o s ≡ ok (r, s')
    → Sim s s'
unfolding callback_cancelled end_payment end_order log_action
cancelled-Sim x p o s r s' u hp ho k h =
    let free = found-open p.id s p hp k in
    elim (Option-cases
      (find_order p.order_id (end_order p.order_id OrderStatus.cancelled s).orders)) [
        | inl e ↦ absurd (ground arith)
        | inr (o', e) ↦ elim (Bool-cases (is_payable o.status)) [
          | inl c ↦ withdraw-Sim s s' p o hp ho k c (ground arith) (ground arith) (ground arith)
          | inr c ↦
              let closed = open_orders-closed p.order_id s o u ho c in
              let still =
                update_where-none (open_order p.order_id) (with_order_status OrderStatus.cancelled)
                  s.orders closed in
              end-Sim s s' p PaymentStatus.cancelled hp k refl (ground arith)
                (ground (arith, still)) (ground arith)
        ]
      ]

apply_callback-Sim :
    (ty : EventType) (x : ℕ) (p : Payment) (o : PayOrder) (s : Store) (r : Response) (s' : Store)
    → IsValid s
    → find_payment p.id s.payments ≡ some p
    → find_order p.order_id s.orders ≡ some o
    → is_pending p.status ≡ true
    → apply_callback ty x p o s ≡ ok (r, s')
    → Sim s s'
unfolding apply_callback
apply_callback-Sim EventType.succeeded x p o s r s' u hp ho k h =
    succeeded-Sim x p o s r s' u hp ho k h
apply_callback-Sim EventType.failed x p o s r s' u hp ho k h = failed-Sim x p o s r s' hp k h
apply_callback-Sim EventType.cancelled x p o s r s' u hp ho k h =
    cancelled-Sim x p o s r s' u hp ho k h

-- Storing an event is no move.
add_event-Sim :
    (provider : ℕ) (ty : EventType) (x : ℕ) (p : Payment) (s s' : Store)
    → Sim (add_event provider ty x p s) s'
    → Sim s s'
unfolding add_event view
add_event-Sim provider ty x p s s' h =
    (h.0, (λ u. h.1 (keep-IsValid s (add_event provider ty x p s) refl refl u)), h.2)

callback_tx-Sim :
    (t : Texts) (raced : Bool) (c : Callback) (first : Payment) (s : Store) (r : Response)
    (s' : Store)
    → IsValid s
    → callback_tx t raced c first s ≡ ok (r, s')
    → Sim s s'
unfolding callback_tx load add_event
callback_tx-Sim t true c first s r s' u h = absurd (ground arith)
callback_tx-Sim t false c first s r s' u h =
    let s1 : Store = add_event t.test_name c.event_type c.external_event_id first s in
    add_event-Sim t.test_name c.event_type c.external_event_id first s s'
      (elim (Option-cases (find_payment first.id s.payments)) [
        | inl e ↦ absurd (ground arith)
        | inr (p, e) ↦ elim (Option-cases (find_order p.order_id s.orders)) [
          | inl e2 ↦ absurd (ground arith)
          | inr (o, e2) ↦ elim (Bool-cases (is_pending p.status)) [
            | inr k ↦ stay-Sim s1 s' (ground arith) (ground arith) (ground arith)
            | inl k ↦
                apply_callback-Sim c.event_type c.external_event_id p o s1 r s'
                  (keep-IsValid s s1 refl refl u) (found_self first.id s p e) e2 k (ground arith)
          ]
        ]
      ])

pub callback-Sim :
    (t : Texts) (raced : Bool) (c : Callback) (s : Store)
    → IsValid s
    → Sim s (process_test_callback t raced c s).1
unfolding process_test_callback
callback-Sim t raced c s u =
    elim (Option-cases (find? (same_event t.test_name c.external_event_id) s.events)) [
      | inr (v, e) ↦ elim (run-cases (load v.payment_id PayError.order_missing s)) [
        | inl (x, b) ↦ rw (process_test_callback, e, b) (stay-Sim s s refl refl refl)
        | inr (q, s1, b) ↦ rw (process_test_callback, e, b) (stay-Sim s s refl refl refl)
      ]
      | inl e ↦ elim (run-cases (load c.payment_id (PayError.payment_not_found c.payment_id) s)) [
        | inl (x, b) ↦ rw (process_test_callback, e, b) (stay-Sim s s refl refl refl)
        | inr (q, s1, b) ↦
            rw (process_test_callback, e, b)
              (caught-Sim (q.0).id s (callback_tx t raced c (q.0))
                (λ r s' ran. callback_tx-Sim t raced c (q.0) s r s' u ran))
      ]
    ]
