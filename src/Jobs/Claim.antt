-- ===== src/Jobs/Claim.antt =====
-- claimDueAutomationJobs (packages/database/src/domain/automation-engine.ts).
use d_n_i_p.Prelude.{
  ℕ, ◌+◌, ◌*◌, Bool, not, ◌&&◌, ◌||◌, Option, none, some, List, map, leb, ltb, filter_where,
  update_where, take, mem_id, order_asc,
}
use d_n_i_p.Jobs.Model.{
  Job, JobStatus, JobType, DeliveryStatus, Store, is_pending, is_running, is_unsent, is_due,
  has_lapsed,
}

-- ClaimAutomationJobsOptions; `allows` is the test by allowedTypes, which lets all through if
-- there is none.
pub record ClaimOptions : Type 0 where
  pub limit : Option ℕ
  pub lease_minutes : Option ℕ
  pub allows : JobType → Bool

-- `value ?? default`
abbrev pub if_none : Option ℕ → ℕ → ℕ
if_none none d = d
if_none (some n) d = n

unfoldable pub is_exhausted : ℕ → Job → Bool
is_exhausted now j =
    is_running j.status && has_lapsed now j.lease_until && leb j.max_attempts j.attempt_count

unfoldable pub exhausted : Job → Job
exhausted j = record j { status = JobStatus.failed; lease_until = none }

-- Step A: stale jobs without attempts left fail, with their deliveries that are not sent.
unfoldable pub fail_exhausted : ℕ → Store → Store
unfolding is_exhausted exhausted
fail_exhausted now s =
    let ids = map Job.id (filter_where (is_exhausted now) s.jobs) in
    record {
      jobs = update_where (is_exhausted now) exhausted s.jobs;
      deliveries =
          update_where (λ d. mem_id d.job_id ids && is_unsent d.status)
            (λ d. record d { status = DeliveryStatus.failed }) s.deliveries;
    }

unfoldable pub is_claimable : ℕ → ClaimOptions → Job → Bool
is_claimable now o j =
    ltb j.attempt_count j.max_attempts
    && o.allows j.job_type
    && (is_pending j.status && is_due now j.scheduled_at
        || is_running j.status && has_lapsed now j.lease_until)

unfoldable pub claimed : ℕ → ClaimOptions → Job → Job
claimed now o j = record j {
  status = JobStatus.running;
  lease_until = some (now + if_none o.lease_minutes 5 * 60000);
  attempt_count = j.attempt_count + 1;
}

-- `locked` are the rows that another claim holds, which SKIP LOCKED leaves out.
unfoldable pub claimed_ids : ℕ → ClaimOptions → (locked : ℕ → Bool) → List Job → List ℕ
unfolding is_claimable
claimed_ids now o locked js = map Job.id (
    take (if_none o.limit 10)
      (order_asc Job.created_at (filter_where (λ j. is_claimable now o j && not (locked j.id)) js)))

unfoldable pub claim_due_automation_jobs :
    ℕ → ClaimOptions → (locked : ℕ → Bool) → Store → List Job × Store
unfolding fail_exhausted claimed_ids claimed
claim_due_automation_jobs now o locked s =
    let s1 = fail_exhausted now s in
    let ids = claimed_ids now o locked s1.jobs in
    let js = update_where (λ j. mem_id j.id ids) (claimed now o) s1.jobs in
    (filter_where (λ j. mem_id j.id ids) js, record s1 { jobs = js })
