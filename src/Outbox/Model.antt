-- ===== src/Outbox/Model.antt =====
-- The outbox table as the worker reads and writes it (apps/worker/src/outbox-processor.ts,
-- packages/database/prisma/schema.prisma). Times are in milliseconds; texts that are only compared
-- are numbers.
use d_n_i_p.Prelude.{ℕ, ◌+◌, ◌*◌, Bool, true, false, ◌&&◌, Option, none, some, ◌==◌, leb, ltb}

pub data OutboxStatus : Type 0 where
  pending processing processed failed : OutboxStatus

pub data OutboxType : Type 0 where
  order_paid order_refunded entitlement_revoked informational ticket_created ticket_replied :
      OutboxType
  ticket_status_changed service_inquiry_created unsupported : OutboxType

pub data AggregateType : Type 0 where
  order service_inquiry other : AggregateType

pub record OutboxEvent : Type 0 where
  pub id : ℕ
  pub event_type : OutboxType
  pub aggregate_type : AggregateType
  pub aggregate_id : ℕ
  pub payload_id : Option ℕ
  pub status : OutboxStatus
  pub retry_count : ℕ
  pub lock_owner : Option ℕ
  pub locked_at : Option ℕ
  pub next_attempt_at : Option ℕ
  pub created_at : ℕ
  pub error : Option ℕ

abbrev pub is_pending : OutboxStatus → Bool
is_pending OutboxStatus.pending = true
is_pending _ = false

abbrev pub is_processing : OutboxStatus → Bool
is_processing OutboxStatus.processing = true
is_processing _ = false

abbrev pub is_due : ℕ → Option ℕ → Bool
is_due now none = true
is_due now (some t) = leb t now

abbrev pub is_stale : ℕ → ℕ → Option ℕ → Bool
is_stale now lease none = false
is_stale now lease (some t) = ltb (t + lease * 60000) now

abbrev pub is_owner : ℕ → Option ℕ → Bool
is_owner worker none = false
is_owner worker (some w) = w == worker

-- The row that a worker holds: its id, still PROCESSING, and locked by that worker.
abbrev pub held_by : ℕ → ℕ → OutboxEvent → Bool
held_by worker i e = e.id == i && is_processing e.status && is_owner worker e.lock_owner
