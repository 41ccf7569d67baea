-- ===== src/Payment/Callback.antt =====
-- processTestCallback (apps/api/src/modules/payments/payments.service.ts), the older flow of the
-- test provider. Its DTO lets through the three event types only.
use d_n_i_p.Prelude.{ℕ, Bool, true, false, not, none, some, ◌==◌, find?, if◌then◌else◌}
use d_n_i_p.Tx.{Result, ok, err, Tx, ◌>>=◌, ◌>>◌, pure, gets, modify, check, found, transaction}
use d_n_i_p.Entitlement.Policy.{OrderStatus}
use d_n_i_p.Payment.Model.{
  PaymentStatus, is_pending, Payment, PayOrder, EventType, AuditAction, Store, Texts, PayError,
  Message, Response, find_order, end_payment, end_order, open_payments, open_orders,
}
use d_n_i_p.Payment.Events.{
  same_event, add_event, log_action, add_order_paid, answer, load, lost_race, catch_unique,
}

pub record Callback : Type 0 where
  pub external_event_id : ℕ
  pub payment_id : ℕ
  pub event_type : EventType

unfoldable pub callback_succeeded : ℕ → Payment → PayOrder → Tx Store PayError Response
unfolding lost_race end_payment end_order add_order_paid log_action
callback_succeeded x p o = do
  n ← gets (open_payments p.id)
  modify (end_payment p.id PaymentStatus.succeeded)
  if n == 0 then lost_race false p.id else do
    m ← gets (open_orders p.order_id)
    modify (end_order p.order_id OrderStatus.paid)
    check (not (m == 0)) (PayError.order_not_payable p.order_id)
    modify (add_order_paid o p)
    modify (log_action AuditAction.order_paid o.id o.user_id x)
    pure (answer false PaymentStatus.succeeded OrderStatus.paid Message.processed)

unfoldable pub callback_failed : ℕ → Payment → PayOrder → Tx Store PayError Response
unfolding lost_race end_payment log_action
callback_failed x p o = do
  n ← gets (open_payments p.id)
  modify (end_payment p.id PaymentStatus.failed)
  if n == 0 then lost_race false p.id else do
    modify (log_action AuditAction.payment_failed p.id o.user_id x)
    pure (answer false PaymentStatus.failed o.status Message.marked_failed)

unfoldable pub callback_cancelled : ℕ → Payment → PayOrder → Tx Store PayError Response
unfolding lost_race end_payment end_order log_action
callback_cancelled x p o = do
  n ← gets (open_payments p.id)
  modify (end_payment p.id PaymentStatus.cancelled)
  if n == 0 then lost_race false p.id else do
    modify (end_order p.order_id OrderStatus.cancelled)
    row ← gets (λ s. find_order p.order_id s.orders)
    current ← found row (PayError.order_not_found p.order_id)
    modify (log_action AuditAction.payment_cancelled p.id o.user_id x)
    pure (answer false PaymentStatus.cancelled current.status Message.event_cancelled)

unfoldable pub apply_callback : EventType → ℕ → Payment → PayOrder → Tx Store PayError Response
unfolding callback_succeeded callback_failed callback_cancelled
apply_callback EventType.succeeded x p o = callback_succeeded x p o
apply_callback EventType.failed x p o = callback_failed x p o
apply_callback EventType.cancelled x p o = callback_cancelled x p o

-- The transaction, for the payment that was found before it.
unfoldable pub callback_tx : Texts → Bool → Callback → Payment → Tx Store PayError Response
unfolding add_event load apply_callback
callback_tx t raced c first = do
  check (not raced) PayError.unique_event
  modify (add_event t.test_name c.event_type c.external_event_id first)
  (p, o) ← load first.id (PayError.payment_not_found first.id)
  if is_pending p.status
      then apply_callback c.event_type c.external_event_id p o
      else pure (answer false p.status o.status Message.in_terminal_state)

-- A callback that verifyEvent has let through.
unfoldable pub process_test_callback :
    Texts → Bool → Callback → Store → Result PayError Response × Store
unfolding load callback_tx catch_unique
process_test_callback t raced c s =
    elim (find? (same_event t.test_name c.external_event_id) s.events) [
      | some v ↦ elim (load v.payment_id PayError.order_missing s) [
        | ok ((p, o), _) ↦ (ok (answer true p.status o.status Message.already_processed), s)
        | err e ↦ (err e, s)
      ]
      | none ↦ elim (load c.payment_id (PayError.payment_not_found c.payment_id) s) [
        | ok ((p, _), _) ↦ catch_unique p.id (transaction (callback_tx t raced c p) s)
        | err e ↦ (err e, s)
      ]
    ]
