-- ===== src/Jobs/Model.antt =====
-- The automation jobs and their deliveries, and the matrix of job statuses
-- (packages/database/src/domain/automation-engine.ts, packages/database/prisma/schema.prisma).
-- Times are in milliseconds; texts that are only compared are numbers.
use d_n_i_p.Prelude.{ℕ, Bool, true, false, Option, none, some, List, ◌==◌, leb, ltb}

pub data JobStatus : Type 0 where
  pending running succeeded failed cancelled : JobStatus

pub data JobType : Type 0 where
  cms_ai_draft order_paid_email license_provisioned_email external_allocation_email : JobType
  service_inquiry_notify_email : JobType

pub data DeliveryStatus : Type 0 where
  pending sending sent failed : DeliveryStatus

-- The payload of an e-mail job, with the delivery once it is there.
pub data Payload : Type 0 where
  order_paid : (order_id recipient currency total : ℕ) (delivery_id : Option ℕ) → Payload
  license_provisioned : (license_id recipient key_last4 : ℕ) (delivery_id : Option ℕ) → Payload
  other : Payload

-- The idempotency keys `order-paid-email:<id>` and `license-provisioned-email:<id>`, and others.
pub data JobKey : Type 0 where
  order_paid_email license_provisioned_email other : ℕ → JobKey

abbrev pub same_key : JobKey → JobKey → Bool
same_key (JobKey.order_paid_email a) (JobKey.order_paid_email b) = a == b
same_key (JobKey.license_provisioned_email a) (JobKey.license_provisioned_email b) = a == b
same_key (JobKey.other a) (JobKey.other b) = a == b
same_key _ _ = false

pub record Job : Type 0 where
  pub id : ℕ
  pub job_type : JobType
  pub status : JobStatus
  pub idempotency_key : JobKey
  pub payload : Payload
  pub attempt_count : ℕ
  pub max_attempts : ℕ
  pub scheduled_at : Option ℕ
  pub lease_until : Option ℕ
  pub created_at : ℕ

pub record JobDelivery : Type 0 where
  pub id : ℕ
  pub job_id : ℕ
  pub recipient : ℕ
  pub idempotency_key : JobKey
  pub status : DeliveryStatus

pub record Store : Type 0 where
  pub jobs : List Job
  pub deliveries : List JobDelivery

-- AUTOMATION_JOB_TRANSITION_MATRIX; `from === to` is not in it.
unfoldable pub is_valid_automation_job_transition : JobStatus → JobStatus → Bool
is_valid_automation_job_transition JobStatus.pending JobStatus.running = true
is_valid_automation_job_transition JobStatus.pending JobStatus.cancelled = true
is_valid_automation_job_transition JobStatus.running JobStatus.succeeded = true
is_valid_automation_job_transition JobStatus.running JobStatus.failed = true
is_valid_automation_job_transition JobStatus.failed JobStatus.pending = true
is_valid_automation_job_transition _ _ = false

abbrev pub is_pending : JobStatus → Bool
is_pending JobStatus.pending = true
is_pending _ = false

abbrev pub is_running : JobStatus → Bool
is_running JobStatus.running = true
is_running _ = false

abbrev pub is_unsent : DeliveryStatus → Bool
is_unsent DeliveryStatus.pending = true
is_unsent DeliveryStatus.sending = true
is_unsent _ = false

-- `scheduled_at IS NULL OR scheduled_at <= NOW()`
abbrev pub is_due : ℕ → Option ℕ → Bool
is_due now none = true
is_due now (some t) = leb t now

-- `lease_until IS NOT NULL AND lease_until < NOW()`
abbrev pub has_lapsed : ℕ → Option ℕ → Bool
has_lapsed now none = false
has_lapsed now (some t) = ltb t now
