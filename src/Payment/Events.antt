-- ===== src/Payment/Events.antt =====
-- processAuthoritativePaymentEvent (apps/api/src/modules/payments/payments.service.ts).
use d_n_i_p.Prelude.{
  ℕ, ℤ, pos, negsuc, Bool, true, false, not, ◌&&◌, ◌||◌, Option, none, some, [], ◌∷◌, ◌++◌, ◌==◌,
  any, if◌then◌else◌,
}
use d_n_i_p.Tx.{
  Result, ok, err, Tx, ◌>>=◌, ◌>>◌, pure, throw, gets, modify, check, found, transaction,
}
use d_n_i_p.Entitlement.Policy.{OrderStatus}
use d_n_i_p.Payment.Model.{
  PaymentStatus, is_pending, is_payable, is_paid, Payment, PayOrder, EventType, PaymentEvent,
  OrderPaid, AuditAction, Store, Texts, Evidence, PayError, Message, Response, find_payment,
  find_order, end_payment, end_order, open_payments, open_orders,
}

abbrev pub int_eq : ℤ → ℤ → Bool
int_eq (pos a) (pos b) = a == b
int_eq (negsuc a) (negsuc b) = a == b
int_eq _ _ = false

-- `!Number.isFinite(n) || !Number.isInteger(n) || n < 0`
abbrev pub bad_amount : Option ℤ → Bool
bad_amount none = true
bad_amount (some (pos n)) = false
bad_amount (some (negsuc n)) = true

abbrev pub same_amount : ℤ → Option ℤ → Bool
same_amount a none = false
same_amount a (some b) = int_eq a b

-- `!r || r !== reference`, where an empty text is no reference.
abbrev pub same_reference : Texts → Option ℕ → ℕ → Bool
same_reference t none reference = false
same_reference t (some r) reference = not (t.is_empty r) && r == reference

-- validateEvidenceShape
unfoldable pub is_incomplete : Texts → Evidence → Bool
is_incomplete t e =
    t.is_blank e.provider
    || t.is_blank e.external_event_id
    || t.is_blank e.payment_id
    || t.is_blank e.order_id
    || t.is_blank e.provider_reference
    || t.is_blank e.currency
    || bad_amount e.amount

abbrev pub provider_of : Texts → Evidence → ℕ
provider_of t e = t.lower (t.trim e.provider)

-- What the evidence says otherwise than the payment that it names.
unfoldable pub mismatch : Texts → Evidence → Payment → Option PayError
mismatch t e p =
    if not (t.lower p.provider == provider_of t e)
    then some PayError.provider_mismatch
    else if not (p.order_id == e.order_id)
    then some PayError.order_mismatch
    else if not (same_reference t p.provider_reference e.provider_reference)
    then some PayError.reference_mismatch
    else if not (same_amount p.amount e.amount)
    then some PayError.amount_mismatch
    else if not (t.upper p.currency == t.upper e.currency)
    then some PayError.currency_mismatch
    else none

abbrev pub raise : Option PayError → Tx Store PayError (Unit {0})
raise none s = ok (tt, s)
raise (some e) s = err e

abbrev pub same_event : ℕ → ℕ → PaymentEvent → Bool
same_event provider external_event_id v =
    v.provider == provider && v.external_event_id == external_event_id

unfoldable pub add_event : ℕ → EventType → ℕ → Payment → Store → Store
add_event provider event_type external_event_id p s = record s {
  events =
      s.events
      ++ record {
        payment_id = p.id;
        provider = provider;
        event_type = event_type;
        external_event_id = external_event_id;
      }
        ∷ [];
}

-- logActionWithClient
unfoldable pub log_action : AuditAction → ℕ → ℕ → ℕ → Store → Store
log_action action entity_id actor_id external_event_id s = record s {
  audit_rows =
      s.audit_rows
      ++ record {
        action = action;
        entity_id = entity_id;
        actor_id = actor_id;
        external_event_id = external_event_id;
      }
        ∷ [];
}

abbrev pub order_paid_row : PayOrder → Payment → OrderPaid
order_paid_row o p = record {
  order_id = o.id;
  order_number = o.order_number;
  user_id = o.user_id;
  total_amount = o.total_amount;
  currency = o.currency;
  payment_id = p.id;
}

unfoldable pub add_order_paid : PayOrder → Payment → Store → Store
add_order_paid o p s = record s { outbox = s.outbox ++ order_paid_row o p ∷ [] }

abbrev pub answer : Bool → PaymentStatus → OrderStatus → Message → Response
answer duplicate p o m = record {
  duplicate = duplicate;
  payment_status = p;
  order_status = o;
  message = m;
}

-- A payment with its order, as `include: { order: true }` gives it.
unfoldable pub load : ℕ → PayError → Tx Store PayError (Payment × PayOrder)
load i e = do
  row ← gets (λ s. find_payment i s.payments)
  p ← found row e
  order_row ← gets (λ s. find_order p.order_id s.orders)
  o ← found order_row PayError.order_missing
  pure (p, o)

-- The answer where a compare-and-set of the payment has found no row.
unfoldable pub lost_race : Bool → ℕ → Tx Store PayError Response
unfolding load
lost_race duplicate i = do
  (p, o) ← load i (PayError.payment_not_found i)
  pure (answer duplicate p.status o.status (Message.transitioned_to p.status))

-- The event says that the attempt has failed, or was cancelled.
unfoldable pub end_attempt :
    PaymentStatus → AuditAction → Message → ℕ → Payment → PayOrder → Tx Store PayError Response
unfolding lost_race end_payment log_action
end_attempt st action message external_event_id p o = do
  n ← gets (open_payments p.id)
  modify (end_payment p.id st)
  if n == 0 then lost_race true p.id else do
    modify (log_action action p.id o.user_id external_event_id)
    pure (answer false st o.status message)

unfoldable pub log_duplicate : Message → ℕ → Payment → PayOrder → Tx Store PayError Response
unfolding log_action
log_duplicate message external_event_id p o = do
  modify (log_action AuditAction.duplicate_payment_detected p.id o.user_id external_event_id)
  pure (answer false PaymentStatus.succeeded OrderStatus.paid message)

-- The answer where the compare-and-set of the order has found no row.
unfoldable pub lost_order : ℕ → Payment → PayOrder → Tx Store PayError Response
unfolding log_duplicate
lost_order external_event_id p o = do
  row ← gets (λ s. find_order p.order_id s.orders)
  current ← found row (PayError.order_not_found p.order_id)
  if is_paid current.status
      then log_duplicate Message.paid_meanwhile external_event_id p o
      else throw (PayError.order_not_payable p.order_id)

unfoldable pub pay_order : ℕ → Payment → PayOrder → Tx Store PayError Response
unfolding lost_order end_order add_order_paid log_action
pay_order external_event_id p o = do
  check (is_payable o.status) (PayError.order_conflict p.order_id o.status)
  n ← gets (open_orders p.order_id)
  modify (end_order p.order_id OrderStatus.paid)
  if n == 0 then lost_order external_event_id p o else do
    modify (add_order_paid o p)
    modify (log_action AuditAction.order_paid o.id o.user_id external_event_id)
    pure (answer false PaymentStatus.succeeded OrderStatus.paid Message.processed)

unfoldable pub succeed : ℕ → Payment → PayOrder → Tx Store PayError Response
unfolding lost_race end_payment log_duplicate pay_order
succeed external_event_id p o = do
  n ← gets (open_payments p.id)
  modify (end_payment p.id PaymentStatus.succeeded)
  if n == 0
      then lost_race true p.id
      else if is_paid o.status
      then log_duplicate Message.paid_already external_event_id p o
      else pay_order external_event_id p o

unfoldable pub apply_event : EventType → ℕ → Payment → PayOrder → Tx Store PayError Response
unfolding end_attempt succeed
apply_event EventType.failed x p o =
    end_attempt PaymentStatus.failed AuditAction.payment_failed Message.marked_failed x p o
apply_event EventType.cancelled x p o =
    end_attempt PaymentStatus.cancelled AuditAction.payment_cancelled Message.attempt_cancelled x p
      o
apply_event EventType.succeeded x p o = succeed x p o

-- An event that is not stored yet. `raced` says whether another transaction stores the same event
-- between the look-up and the insert, which the unique index then refuses.
unfoldable pub new_event : Texts → Bool → Evidence → Payment → PayOrder → Tx Store PayError Response
unfolding add_event apply_event
new_event t raced e p o = do
  check (not raced) PayError.unique_event
  modify (add_event (provider_of t e) e.event_type e.external_event_id p)
  if is_pending p.status
      then apply_event e.event_type e.external_event_id p o
      else pure (answer true p.status o.status Message.recorded_only)

unfoldable pub event_tx : Texts → Bool → Evidence → Tx Store PayError Response
unfolding load mismatch new_event
event_tx t raced e = do
  (p, o) ← load e.payment_id (PayError.payment_not_found e.payment_id)
  raise (mismatch t e p)
  seen ← gets (λ s. any (same_event (provider_of t e) e.external_event_id) s.events)
  if seen
      then pure (answer true p.status o.status Message.already_processed)
      else new_event t raced e p o

-- `reloaded?.status || PENDING`, and `reloaded?.order?.status || PENDING_PAYMENT`.
unfoldable pub reloaded : ℕ → Store → Response
unfolding load
reloaded i s = elim (load i (PayError.payment_not_found i) s) [
  | ok ((p, o), _) ↦ answer true p.status o.status Message.concurrent_duplicate
  | err _ ↦
      answer true PaymentStatus.pending OrderStatus.pending_payment Message.concurrent_duplicate
]

-- The `catch` around the transaction: the refusal of the unique index is a duplicate.
unfoldable pub catch_unique :
    ℕ → Result PayError Response × Store → Result PayError Response × Store
unfolding reloaded
catch_unique i (ok r, s) = (ok r, s)
catch_unique i (err PayError.unique_event, s) = (ok (reloaded i s), s)
catch_unique i (err e, s) = (err e, s)

unfoldable pub process_authoritative_payment_event :
    Texts → Bool → Evidence → Store → Result PayError Response × Store
unfolding is_incomplete catch_unique event_tx
process_authoritative_payment_event t raced e s =
    if is_incomplete t e
    then (err PayError.incomplete_evidence, s)
    else catch_unique e.payment_id (transaction (event_tx t raced e) s)
