-- ===== src/Payment/Model.antt =====
-- The tables of the payments (packages/database/prisma/schema.prisma), and the evidence, the
-- responses and the errors of apps/api/src/modules/payments/payments.service.ts.
-- Ids and other texts that the program only compares are numbers.
use d_n_i_p.Prelude.{
  ℕ, ℤ, Bool, true, false, ◌&&◌, Option, List, find?, count_where, update_where, ◌==◌,
}
use d_n_i_p.Entitlement.Policy.{OrderStatus}

pub data PaymentStatus : Type 0 where
  pending succeeded failed cancelled : PaymentStatus

abbrev pub is_pending : PaymentStatus → Bool
is_pending PaymentStatus.pending = true
is_pending _ = false

abbrev pub is_payable : OrderStatus → Bool
is_payable OrderStatus.pending_payment = true
is_payable _ = false

abbrev pub is_paid : OrderStatus → Bool
is_paid OrderStatus.paid = true
is_paid _ = false

pub record Payment : Type 0 where
  pub id : ℕ
  pub order_id : ℕ
  pub provider : ℕ
  pub provider_reference : Option ℕ
  pub status : PaymentStatus
  pub amount : ℤ
  pub currency : ℕ

pub record PayOrder : Type 0 where
  pub id : ℕ
  pub order_number : ℕ
  pub user_id : ℕ
  pub status : OrderStatus
  pub total_amount : ℤ
  pub currency : ℕ

pub data EventType : Type 0 where
  succeeded failed cancelled : EventType

pub record PaymentEvent : Type 0 where
  pub payment_id : ℕ
  pub provider : ℕ
  pub event_type : EventType
  pub external_event_id : ℕ

-- The payload of an ORDER_PAID row of the outbox; the id of the order is the aggregate id, too.
pub record OrderPaid : Type 0 where
  pub order_id : ℕ
  pub order_number : ℕ
  pub user_id : ℕ
  pub total_amount : ℤ
  pub currency : ℕ
  pub payment_id : ℕ

pub data AuditAction : Type 0 where
  payment_failed payment_cancelled duplicate_payment_detected order_paid : AuditAction

pub record AuditRow : Type 0 where
  pub action : AuditAction
  pub entity_id : ℕ
  pub actor_id : ℕ
  pub external_event_id : ℕ

pub record Store : Type 0 where
  pub orders : List PayOrder
  pub payments : List Payment
  pub events : List PaymentEvent
  pub outbox : List OrderPaid
  pub audit_rows : List AuditRow

-- What the program asks of texts: `!s`, `!s?.trim()`, `s.trim()`, `toLowerCase` and `toUpperCase`; and
-- the name "TEST".
pub record Texts : Type 0 where
  pub is_empty : ℕ → Bool
  pub is_blank : ℕ → Bool
  pub trim : ℕ → ℕ
  pub lower : ℕ → ℕ
  pub upper : ℕ → ℕ
  pub test_name : ℕ

-- AuthoritativePaymentEvidence, whose amount is none where it is no finite integer.
pub record Evidence : Type 0 where
  pub provider : ℕ
  pub external_event_id : ℕ
  pub payment_id : ℕ
  pub order_id : ℕ
  pub provider_reference : ℕ
  pub amount : Option ℤ
  pub currency : ℕ
  pub event_type : EventType

pub data PayError : Type 0 where
  incomplete_evidence id_taken provider_mismatch order_mismatch reference_mismatch : PayError
  amount_mismatch currency_mismatch unique_event order_missing : PayError
  payment_not_found order_not_found order_not_payable : ℕ → PayError
  order_conflict : ℕ → OrderStatus → PayError
  forbidden session_conflict session_unavailable unknown_provider : PayError

pub data Message : Type 0 where
  already_processed recorded_only marked_failed attempt_cancelled paid_already paid_meanwhile :
      Message
  processed concurrent_duplicate in_terminal_state event_cancelled ignored : Message
  transitioned_to : PaymentStatus → Message

pub record Response : Type 0 where
  pub duplicate : Bool
  pub payment_status : PaymentStatus
  pub order_status : OrderStatus
  pub message : Message

abbrev pub find_payment : ℕ → List Payment → Option Payment
find_payment i = find? (λ p. p.id == i)

abbrev pub find_order : ℕ → List PayOrder → Option PayOrder
find_order i = find? (λ o. o.id == i)

-- The rows of `where: { id, status: PENDING }`, and of `where: { id, status: PENDING_PAYMENT }`.
abbrev pub open_payment : ℕ → Payment → Bool
open_payment i p = p.id == i && is_pending p.status

abbrev pub open_order : ℕ → PayOrder → Bool
open_order i o = o.id == i && is_payable o.status

abbrev pub with_status : PaymentStatus → Payment → Payment
with_status st p = record p { status = st }

abbrev pub with_order_status : OrderStatus → PayOrder → PayOrder
with_order_status st o = record o { status = st }

-- The updates by which a status is compared and set.
unfoldable pub end_payment : ℕ → PaymentStatus → Store → Store
end_payment i st s = record s {
  payments = update_where (open_payment i) (with_status st) s.payments;
}

unfoldable pub end_order : ℕ → OrderStatus → Store → Store
end_order i st s = record s { orders = update_where (open_order i) (with_order_status st) s.orders }

abbrev pub open_payments : ℕ → Store → ℕ
open_payments i s = count_where (open_payment i) s.payments

abbrev pub open_orders : ℕ → Store → ℕ
open_orders i s = count_where (open_order i) s.orders
