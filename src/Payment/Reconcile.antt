-- ===== src/Payment/Reconcile.antt =====
-- reconcilePayment (apps/api/src/modules/payments/payments.service.ts).
use d_n_i_p.Prelude.{ℕ, Bool, false, not, Option, none, some, ◌==◌, if◌then◌else◌}
use d_n_i_p.Tx.{Result, ok, err}
use d_n_i_p.Entitlement.Policy.{OrderStatus}
use d_n_i_p.Payment.Model.{
  PaymentStatus, is_pending, Payment, PayOrder, EventType, Store, Texts, Evidence, PayError,
  Response,
}
use d_n_i_p.Payment.Events.{load, int_eq, process_authoritative_payment_event}
use d_n_i_p.Payment.Sessions.{Adapter, ProviderStatus, reference_of}

pub record Reconciled : Type 0 where
  pub transitioned : Bool
  pub payment_status : PaymentStatus
  pub order_status : OrderStatus

-- The event type of a status that the provider calls final.
abbrev pub final_event : PaymentStatus → Option EventType
final_event PaymentStatus.pending = none
final_event PaymentStatus.succeeded = some EventType.succeeded
final_event PaymentStatus.cancelled = some EventType.cancelled
final_event PaymentStatus.failed = some EventType.failed

-- `externalEventId || "reconcile_..."`, whose text `name` builds.
abbrev pub event_id : Texts → (name : ℕ → PaymentStatus → ℕ) → ℕ → ProviderStatus → ℕ
event_id t name reference q = elim q.external_event_id [
  | none ↦ name reference q.status
  | some x ↦ if t.is_empty x then name reference q.status else x
]

unfoldable pub status_mismatch : Texts → ProviderStatus → Payment → ℕ → Option PayError
status_mismatch t q p reference =
    if not (q.provider_reference == reference)
    then some PayError.reference_mismatch
    else if not (int_eq q.amount p.amount)
    then some PayError.amount_mismatch
    else if not (t.upper q.currency == t.upper p.currency)
    then some PayError.currency_mismatch
    else none

unfoldable pub evidence_of :
    Texts
    → (name : ℕ → PaymentStatus → ℕ) → Adapter
    → Payment
    → ℕ
    → ProviderStatus
    → EventType
    → Evidence
evidence_of t name a p reference q event_type = record {
  provider = a.provider_name;
  external_event_id = event_id t name reference q;
  payment_id = p.id;
  order_id = p.order_id;
  provider_reference = q.provider_reference;
  amount = some q.amount;
  currency = q.currency;
  event_type = event_type;
}

abbrev pub untouched : Payment → PayOrder → Reconciled
untouched p o = record { transitioned = false; payment_status = p.status; order_status = o.status }

abbrev pub of_response : Response → Reconciled
of_response r = record {
  transitioned = not r.duplicate;
  payment_status = r.payment_status;
  order_status = r.order_status;
}

unfoldable pub answered : Result PayError Response × Store → Result PayError Reconciled × Store
answered (ok r, s) = (ok (of_response r), s)
answered (err e, s) = (err e, s)

-- What is done with an answer of the provider.
unfoldable pub use_status :
    Texts
    → (name : ℕ → PaymentStatus → ℕ) → Bool
    → Adapter
    → Payment
    → PayOrder
    → ℕ
    → ProviderStatus
    → Store
    → Result PayError Reconciled × Store
unfolding status_mismatch evidence_of answered
use_status t name raced a p o reference q s = elim (status_mismatch t q p reference) [
  | some e ↦ (err e, s)
  | none ↦ elim (final_event q.status) [
    | none ↦ (ok (untouched p o), s)
    | some ty ↦
        answered
          (process_authoritative_payment_event t raced (evidence_of t name a p reference q ty) s)
  ]
]

-- The provider is asked only where its adapter can be, and the payment has a reference.
unfoldable pub query : Texts → Adapter → Payment → Option (ℕ × Option ProviderStatus)
query t a p = elim a.query_payment_status [
  | none ↦ none
  | some ask ↦ elim (reference_of t p) [ none ↦ none | some r ↦ some (r, ask r) ]
]

unfoldable pub reconcile_payment :
    Texts
    → (name : ℕ → PaymentStatus → ℕ) (get_adapter : ℕ → Option Adapter) (raced : Bool)
      (payment_id : ℕ) (s : Store)
    → Result PayError Reconciled × Store
unfolding load query use_status
reconcile_payment t name get_adapter raced i s = elim (load i (PayError.payment_not_found i) s) [
  | err e ↦ (err e, s)
  | ok ((p, o), _) ↦
      if not (is_pending p.status) then (ok (untouched p o), s) else elim (get_adapter p.provider) [
        | none ↦ (err PayError.unknown_provider, s)
        | some a ↦
            if not (t.lower p.provider == a.provider_name)
            then (err PayError.provider_mismatch, s)
            else elim (query t a p) [
              | none ↦ (ok (untouched p o), s)
              | some (reference, none) ↦ (ok (untouched p o), s)
              | some (reference, some q) ↦ use_status t name raced a p o reference q s
            ]
      ]
]
