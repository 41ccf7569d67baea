-- ===== src/Payment/Outcome.antt =====
-- What processAuthoritativePaymentEvent has done when it returns: the compare-and-sets find their
-- row, since the payment and the order have been read under their locks.
use d_n_i_p.Prelude.{
  ℕ, ◌≡◌, refl, ◌⊎◌, inl, inr, Bool, true, false, none, some, ◌==◌, arith, any, Bool-cases,
  Option-cases,
}
use d_n_i_p.Prelude.Rows.{find?-sound, find?-Member, count-Member}
use d_n_i_p.Tx.{Result, ok, err}
use d_n_i_p.Entitlement.Policy.{OrderStatus}
use d_n_i_p.Payment.Model.{
  PaymentStatus, is_pending, is_payable, is_paid, Payment, PayOrder, EventType, AuditAction, Store,
  Texts, Evidence, PayError, Message, Response, find_payment, find_order, end_payment, end_order,
  open_payment, open_order, open_payments, open_orders,
}
use d_n_i_p.Payment.Events.{
  provider_of, mismatch, same_event, add_event, log_action, add_order_paid, answer, load,
  end_attempt, log_duplicate, pay_order, succeed, apply_event, new_event, event_tx, catch_unique,
}

pub found-open :
    (i : ℕ) (s : Store) (p : Payment)
    → find_payment i s.payments ≡ some p
    → is_pending p.status ≡ true
    → (open_payments p.id s == 0) ≡ false
found-open i s p h pend =
    let same : (p.id == i) ≡ true = find?-sound (λ q. q.id == i) s.payments h in
    let member = find?-Member (λ q. q.id == i) s.payments h in
    ground (arith, count-Member (open_payment p.id) s.payments p member (ground arith))

pub found-payable :
    (i : ℕ) (s : Store) (o : PayOrder)
    → find_order i s.orders ≡ some o
    → is_payable o.status ≡ true
    → (open_orders i s == 0) ≡ false
found-payable i s o h pend =
    let same : (o.id == i) ≡ true = find?-sound (λ q. q.id == i) s.orders h in
    let member = find?-Member (λ q. q.id == i) s.orders h in
    ground (arith, count-Member (open_order i) s.orders o member (ground arith))

-- The status that an event gives to a payment, and what is logged of it.
abbrev pub status_of : EventType → PaymentStatus
status_of EventType.succeeded = PaymentStatus.succeeded
status_of EventType.failed = PaymentStatus.failed
status_of EventType.cancelled = PaymentStatus.cancelled

abbrev pub action_of : EventType → AuditAction
action_of EventType.failed = AuditAction.payment_failed
action_of EventType.cancelled = AuditAction.payment_cancelled
action_of EventType.succeeded = AuditAction.duplicate_payment_detected

abbrev pub message_of : EventType → Message
message_of EventType.failed = Message.marked_failed
message_of EventType.cancelled = Message.attempt_cancelled
message_of EventType.succeeded = Message.paid_already

abbrev pub leaves_order : EventType → PayOrder → Bool
leaves_order EventType.succeeded o = is_paid o.status
leaves_order _ o = true

-- The store once the payment is ended, and once the order is paid.
unfoldable pub ended : EventType → ℕ → Payment → PayOrder → Store → Store
unfolding end_payment log_action
ended ty x p o s = log_action (action_of ty) p.id o.user_id x (end_payment p.id (status_of ty) s)

unfoldable pub paid : ℕ → Payment → PayOrder → Store → Store
unfolding end_payment end_order add_order_paid log_action
paid x p o s = log_action AuditAction.order_paid o.id o.user_id x (
    add_order_paid o p
      (end_order p.order_id OrderStatus.paid (end_payment p.id PaymentStatus.succeeded s)))

-- The answers of an event on a pending payment.
pub apply_event-ended :
    (ty : EventType) (x : ℕ) (p : Payment) (o : PayOrder) (s : Store)
    → (open_payments p.id s == 0) ≡ false
    → leaves_order ty o ≡ true
    → apply_event ty x p o s
      ≡ ok (answer false (status_of ty) o.status (message_of ty), ended ty x p o s)
unfolding apply_event end_attempt succeed log_duplicate ended
apply_event-ended EventType.failed x p o s h k = ground arith
apply_event-ended EventType.cancelled x p o s h k = ground arith
apply_event-ended EventType.succeeded x p o s h k = ground arith

pub apply_event-paid :
    (x : ℕ) (p : Payment) (o : PayOrder) (s : Store)
    → (open_payments p.id s == 0) ≡ false
    → is_payable o.status ≡ true
    → (open_orders p.order_id s == 0) ≡ false
    → apply_event EventType.succeeded x p o s
      ≡ ok (answer false PaymentStatus.succeeded OrderStatus.paid Message.processed, paid x p o s)
unfolding apply_event succeed pay_order paid end_payment
apply_event-paid x p o s h k l = ground arith

pub apply_event-refused :
    (x : ℕ) (p : Payment) (o : PayOrder) (s : Store)
    → (open_payments p.id s == 0) ≡ false
    → is_paid o.status ≡ false
    → is_payable o.status ≡ false
    → apply_event EventType.succeeded x p o s ≡ err (PayError.order_conflict p.order_id o.status)
unfolding apply_event succeed pay_order
apply_event-refused x p o s h k l = ground arith

pub data Applied (e : Evidence) (p : Payment) (o : PayOrder) (s : Store) (r : Response) (s' : Store)
    : Type 0 where
  to_end :
      leaves_order e.event_type o ≡ true
      → r ≡ answer false (status_of e.event_type) o.status (message_of e.event_type)
      → s' ≡ ended e.event_type e.external_event_id p o s
      → Applied e p o s r s'
  to_paid :
      is_payable o.status ≡ true
      → e.event_type ≡ EventType.succeeded
      → r ≡ answer false PaymentStatus.succeeded OrderStatus.paid Message.processed
      → s' ≡ paid e.external_event_id p o s
      → Applied e p o s r s'

leaves-cases :
    (ty : EventType) (o : PayOrder)
    → (leaves_order ty o ≡ true) ⊎ ((ty ≡ EventType.succeeded) × (is_paid o.status ≡ false))
leaves-cases EventType.failed o = inl refl
leaves-cases EventType.cancelled o = inl refl
leaves-cases EventType.succeeded o = elim (Bool-cases (is_paid o.status)) [
  | inl h ↦ inl h
  | inr h ↦ inr (refl, h)
]

pub apply_event-Applied :
    (e : Evidence) (p : Payment) (o : PayOrder) (s : Store) (r : Response) (s' : Store)
    → find_payment e.payment_id s.payments ≡ some p
    → find_order p.order_id s.orders ≡ some o
    → is_pending p.status ≡ true
    → apply_event e.event_type e.external_event_id p o s ≡ ok (r, s')
    → Applied e p o s r s'
apply_event-Applied e p o s r s' hp ho pend h =
    let free = found-open e.payment_id s p hp pend in
    elim (leaves-cases e.event_type o) [
      | inl k ↦
          let run = apply_event-ended e.event_type e.external_event_id p o s free k in
          to_end k (ground arith) (ground arith)
      | inr (ty, unpaid) ↦ elim (Bool-cases (is_payable o.status)) [
        | inl k ↦
            let run =
              apply_event-paid e.external_event_id p o s free k
                (found-payable p.order_id s o ho k) in
            to_paid k ty (ground (arith, run)) (ground (arith, run))
        | inr k ↦
            let run = apply_event-refused e.external_event_id p o s free unpaid k in
            absurd (ground arith)
      ]
    ]

-- The ways of an event that returns: it was seen already; the payment is ended already, and the
-- event is stored only; or it is applied.
pub data Outcome (t : Texts) (e : Evidence) (p : Payment) (o : PayOrder) (s : Store) (r : Response)
    (s' : Store) : Type 0 where
  seen :
      any (same_event (provider_of t e) e.external_event_id) s.events ≡ true
      → r ≡ answer true p.status o.status Message.already_processed
      → s' ≡ s
      → Outcome t e p o s r s'
  recorded :
      is_pending p.status ≡ false
      → r ≡ answer true p.status o.status Message.recorded_only
      → s' ≡ add_event (provider_of t e) e.event_type e.external_event_id p s
      → Outcome t e p o s r s'
  applied :
      is_pending p.status ≡ true
      → any (same_event (provider_of t e) e.external_event_id) s.events ≡ false
      → Applied e p o (add_event (provider_of t e) e.event_type e.external_event_id p s) r s'
      → Outcome t e p o s r s'

new_event-Outcome :
    (t : Texts) (raced : Bool) (e : Evidence) (p : Payment) (o : PayOrder) (s : Store)
    (r : Response) (s' : Store)
    → find_payment e.payment_id s.payments ≡ some p
    → find_order p.order_id s.orders ≡ some o
    → any (same_event (provider_of t e) e.external_event_id) s.events ≡ false
    → new_event t raced e p o s ≡ ok (r, s')
    → Outcome t e p o s r s'
unfolding new_event add_event
new_event-Outcome t true e p o s r s' hp ho new h = absurd (ground arith)
new_event-Outcome t false e p o s r s' hp ho new h = elim (Bool-cases (is_pending p.status)) [
  | inr k ↦ recorded k (ground arith) (ground arith)
  | inl k ↦
      let s1 : Store = add_event (provider_of t e) e.event_type e.external_event_id p s in
      let run : apply_event e.event_type e.external_event_id p o s1 ≡ ok (r, s') = ground arith in
      applied k new (apply_event-Applied e p o s1 r s' hp' ho' k run)
]
  where
    hp' :
        find_payment e.payment_id
          (add_event (provider_of t e) e.event_type e.external_event_id p s).payments
        ≡ some p
    hp' = hp

    ho' :
        find_order p.order_id
          (add_event (provider_of t e) e.event_type e.external_event_id p s).orders
        ≡ some o
    ho' = ho

pub event_tx-Outcome :
    (t : Texts) (raced : Bool) (e : Evidence) (s : Store) (r : Response) (s' : Store)
    → event_tx t raced e s ≡ ok (r, s')
    → (p : Payment) × (o : PayOrder) × (find_payment e.payment_id s.payments ≡ some p)
      × (find_order p.order_id s.orders ≡ some o)
      × (mismatch t e p ≡ none)
      × Outcome t e p o s r s'
unfolding event_tx load
event_tx-Outcome t raced e s r s' h = elim (Option-cases (find_payment e.payment_id s.payments)) [
  | inl e1 ↦ absurd (ground arith)
  | inr (p, e1) ↦ elim (Option-cases (find_order p.order_id s.orders)) [
    | inl e2 ↦ absurd (ground arith)
    | inr (o, e2) ↦ elim (Option-cases (mismatch t e p)) [
      | inr (x, e3) ↦ absurd (ground arith)
      | inl e3 ↦ (
        p,
        o,
        e1,
        e2,
        e3,
        elim (Bool-cases (any (same_event (provider_of t e) e.external_event_id) s.events)) [
          | inl e4 ↦ seen e4 (ground arith) (ground arith)
          | inr e4 ↦ new_event-Outcome t raced e p o s r s' e1 e2 e4 (ground arith)
        ],
      )
    ]
  ]
]

-- The catch changes the answer only.
pub catch_unique-store : (i : ℕ) (q : Result PayError Response × Store) → (catch_unique i q).1 ≡ q.1
unfolding catch_unique
catch_unique-store i (ok r, s) = refl
catch_unique-store i (err e, s) = ground arith
