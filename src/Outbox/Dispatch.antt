-- ===== src/Outbox/Dispatch.antt =====
-- What the worker does for an event, by its type (apps/worker/src/outbox-processor.ts). The
-- handlers are parameters: each changes what it changes, `W`, and may fail with an error.
use d_n_i_p.Prelude.{ℕ, Bool, true, false, not, Option, none, some, ◌==◌, if◌then◌else◌}
use d_n_i_p.Outbox.Model.{OutboxType, AggregateType, OutboxEvent}

-- A handler fails with an error or not, and what it has written stays either way.
abbrev pub Handler : Type 0 → Type 0
Handler W = ℕ → W → Option ℕ × W

pub record Handlers (W : Type 0) : Type 0 where
  pub issue_entitlements : Handler W
  pub enqueue_order_paid_email : Handler W
  pub process_affiliate : Handler W
  pub provision_hosting : Handler W
  pub record_ledger : Handler W
  pub clawback_affiliate : Handler W
  pub suspend_hosting : Handler W
  pub record_refund : Handler W
  pub suspend_for_entitlement : Handler W
  pub notify_ticket_created : Handler W
  pub notify_ticket_replied : Handler W
  pub notify_service_inquiry : Handler W

-- isFeatureEnabled
pub record Features : Type 0 where
  pub affiliate : Bool
  pub hosting : Bool
  pub finance : Bool

-- The errors that the processor itself throws.
abbrev pub invalid_aggregate_type : ℕ
invalid_aggregate_type = 1

abbrev pub payload_mismatch : ℕ
payload_mismatch = 2

abbrev pub unsupported_event : ℕ
unsupported_event = 3

-- `payloadId && payloadId !== aggregateId`
abbrev pub names_other : Option ℕ → ℕ → Bool
names_other none i = false
names_other (some p) i = not (p == i)

abbrev pub is_order : AggregateType → Bool
is_order AggregateType.order = true
is_order _ = false

abbrev pub is_inquiry : AggregateType → Bool
is_inquiry AggregateType.service_inquiry = true
is_inquiry _ = false

module _ {W : Type 0} where
  abbrev pub proceed_with : Option ℕ × W → (W → Option ℕ × W) → Option ℕ × W
  proceed_with (none, w) next = next w
  proceed_with (some e, w) next = (some e, w)

  abbrev pub when : Bool → (W → Option ℕ × W) → W → Option ℕ × W
  when true f w = f w
  when false f w = (none, w)

  unfoldable pub on_order_paid : Handlers W → Features → ℕ → W → Option ℕ × W
  on_order_paid h f i w0 = proceed_with (h.issue_entitlements i w0) (λ w1.
      proceed_with (h.enqueue_order_paid_email i w1) (λ w2.
        proceed_with (when f.affiliate (h.process_affiliate i) w2) (λ w3.
          proceed_with (when f.hosting (h.provision_hosting i) w3)
            (λ w4. when f.finance (h.record_ledger i) w4))))

  unfoldable pub on_order_refunded : Handlers W → Features → ℕ → W → Option ℕ × W
  on_order_refunded h f i w0 =
      proceed_with (h.clawback_affiliate i w0)
        (λ w1. proceed_with (h.suspend_hosting i w1) (λ w2. when f.finance (h.record_refund i) w2))

  unfoldable pub guarded : Bool → OutboxEvent → (W → Option ℕ × W) → W → Option ℕ × W
  guarded right_type e f w =
      if not right_type
      then (some invalid_aggregate_type, w)
      else if names_other e.payload_id e.aggregate_id
      then (some payload_mismatch, w)
      else f w

  unfoldable pub dispatch : Handlers W → Features → OutboxEvent → W → Option ℕ × W
  unfolding guarded on_order_paid on_order_refunded
  dispatch h f e w = elim e.event_type [
    | OutboxType.order_paid ↦
        guarded (is_order e.aggregate_type) e (on_order_paid h f e.aggregate_id) w
    | OutboxType.order_refunded ↦ on_order_refunded h f e.aggregate_id w
    | OutboxType.entitlement_revoked ↦ h.suspend_for_entitlement e.aggregate_id w
    | OutboxType.informational ↦ (none, w)
    | OutboxType.ticket_created ↦ h.notify_ticket_created e.id w
    | OutboxType.ticket_replied ↦ h.notify_ticket_replied e.id w
    | OutboxType.ticket_status_changed ↦ (none, w)
    | OutboxType.service_inquiry_created ↦
        guarded (is_inquiry e.aggregate_type) e (h.notify_service_inquiry e.aggregate_id) w
    | OutboxType.unsupported ↦ (some unsupported_event, w)
  ]
