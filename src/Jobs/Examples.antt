-- ===== src/Jobs/Examples.antt =====
-- A pending job, and one whose lease has ended after its last attempt.
use d_n_i_p.Prelude.{ℕ, ◌≡◌, false, true, Option, none, some, [], ◌∷◌, All, arith}
use d_n_i_p.Jobs.Model.{Job, JobType, JobStatus, JobKey, Payload, Store}
use d_n_i_p.Jobs.Claim.{ClaimOptions, claim_due_automation_jobs}
use d_n_i_p.Jobs.Attempts.{IsWithin, claim_due_automation_jobs-IsWithin}
use d_n_i_p.Jobs.Enqueue.{Draw, OrderMail, enqueue_order_paid_email_job}
use d_n_i_p.Jobs.Sent.{enqueue_order_paid_email_job_again}

abbrev a_job : Job
a_job = record {
  id = 1;
  job_type = JobType.order_paid_email;
  status = JobStatus.pending;
  idempotency_key = JobKey.order_paid_email 5;
  payload = Payload.other;
  attempt_count = 2;
  max_attempts = 3;
  scheduled_at = none;
  lease_until = none;
  created_at = 10;
}

abbrev a_store : Store
a_store = record {
  jobs =
      a_job
      ∷ record a_job {
        id = 2;
        status = JobStatus.running;
        attempt_count = 3;
        lease_until = some 50;
      }
      ∷ [];
  deliveries = [];
}

abbrev options : ClaimOptions
options = record { limit = none; lease_minutes = none; allows = λ ty. true }

claim_due_automation_jobs-IsWithin_example :
    All IsWithin (claim_due_automation_jobs 100 options (λ i. false) a_store).1.jobs
claim_due_automation_jobs-IsWithin_example =
    claim_due_automation_jobs-IsWithin 100 options (λ i. false) a_store
      ((λ h. ground arith, tt), (tt, tt)) (omega arith, (omega arith, tt))

abbrev mail : ℕ → Option OrderMail
mail i = some (record { email = some 77; currency = 3; total = 500 })

abbrev first_draw : Draw
first_draw = record { job_id = 9; delivery_id = 10; now = 100 }

abbrev second_draw : Draw
second_draw = record { job_id = 11; delivery_id = 12; now = 200 }

enqueue_order_paid_email_job_again_example :
    enqueue_order_paid_email_job second_draw mail 6
      (enqueue_order_paid_email_job first_draw mail 6 a_store).1
    ≡ enqueue_order_paid_email_job first_draw mail 6 a_store
enqueue_order_paid_email_job_again_example =
    enqueue_order_paid_email_job_again first_draw second_draw mail 6 a_store
