-- ===== src/Jobs/Enqueue.antt =====
-- enqueueOrderPaidEmailJob and enqueueLicenseProvisionedEmailJob
-- (packages/database/src/domain/automation-engine.ts).
use d_n_i_p.Prelude.{ℕ, Bool, Option, none, some, [], ◌∷◌, ◌++◌, find?}
use d_n_i_p.Jobs.Model.{
  Job, JobStatus, JobType, JobKey, same_key, Payload, JobDelivery, DeliveryStatus, Store,
}

-- What the insert of a job and its delivery draws.
pub record Draw : Type 0 where
  pub job_id : ℕ
  pub delivery_id : ℕ
  pub now : ℕ

abbrev pub job_of : JobKey → Job → Bool
job_of k j = same_key j.idempotency_key k

unfoldable pub new_job : Draw → JobType → JobKey → Payload → Job
new_job w ty k p = record {
  id = w.job_id;
  job_type = ty;
  status = JobStatus.pending;
  idempotency_key = k;
  payload = p;
  attempt_count = 0;
  max_attempts = 3;
  scheduled_at = none;
  lease_until = none;
  created_at = w.now;
}

unfoldable pub new_delivery : Draw → JobKey → ℕ → JobDelivery
new_delivery w k recipient = record {
  id = w.delivery_id;
  job_id = w.job_id;
  recipient = recipient;
  idempotency_key = k;
  status = DeliveryStatus.pending;
}

-- The body that both functions have: the job of the key, or a new one with its delivery, whose id
-- the last update writes into the payload.
unfoldable pub execute :
    Draw → JobType → JobKey → (recipient : ℕ) (payload : Option ℕ → Payload) → Store → Job × Store
unfolding new_job new_delivery
execute w ty k recipient payload s = elim (find? (job_of k) s.jobs) [
  | some j ↦ (j, s)
  | none ↦
      let j = new_job w ty k (payload (some w.delivery_id)) in
      (
        j,
        record {
          jobs = s.jobs ++ j ∷ [];
          deliveries = s.deliveries ++ new_delivery w k recipient ∷ [];
        },
      )
]

-- An order with the e-mail of its user, if there is one.
pub record OrderMail : Type 0 where
  pub email : Option ℕ
  pub currency : ℕ
  pub total : ℕ

unfoldable pub enqueue_order_paid_email_job :
    Draw → (find_order : ℕ → Option OrderMail) → ℕ → Store → Option Job × Store
unfolding execute
enqueue_order_paid_email_job w find_order order_id s = elim (find_order order_id) [
  | none ↦ (none, s)
  | some o ↦ elim o.email [
    | none ↦ (none, s)
    | some recipient ↦
        let done =
          execute w JobType.order_paid_email (JobKey.order_paid_email order_id) recipient
            (Payload.order_paid order_id recipient o.currency o.total) s in
        (some (done.0), done.1)
  ]
]

-- A licence with the last part of its key, or 9999 where it has none, and the e-mail of its user, if there is one.
pub record LicenseMail : Type 0 where
  pub email : Option ℕ
  pub key_last4 : ℕ

unfoldable pub enqueue_license_provisioned_email_job :
    Draw → (find_license : ℕ → Option LicenseMail) → ℕ → Store → Option Job × Store
unfolding execute
enqueue_license_provisioned_email_job w find_license license_id s = elim (find_license license_id) [
  | none ↦ (none, s)
  | some l ↦ elim l.email [
    | none ↦ (none, s)
    | some recipient ↦
        let done =
          execute w JobType.license_provisioned_email (JobKey.license_provisioned_email license_id)
            recipient (Payload.license_provisioned license_id recipient l.key_last4) s in
        (some (done.0), done.1)
  ]
]
