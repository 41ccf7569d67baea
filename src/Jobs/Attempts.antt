-- ===== src/Jobs/Attempts.antt =====
-- The attempts of jobs under claimDueAutomationJobs
-- (packages/database/src/domain/automation-engine.ts).
use d_n_i_p.Prelude.{
  ℕ, ◌+◌, ◌≤◌, ◌≡◌, refl, Bool, true, not, ◌&&◌, List, count_where, mem_id, All, Unique, Member,
  arith,
}
use d_n_i_p.Prelude.Rows.{All-update, All-updated, All-of_Member, Unique-update, count-update_le}
use d_n_i_p.Prelude.Batches.{ordered_batch_sound, count-zero_after}
use d_n_i_p.Jobs.Model.{Job, Store}
use d_n_i_p.Jobs.Claim.{
  ClaimOptions, if_none, is_exhausted, exhausted, fail_exhausted, is_claimable, claimed,
  claimed_ids, claim_due_automation_jobs,
}

abbrev pub IsWithin : Job → Type 0
IsWithin j = j.attempt_count ≤ j.max_attempts

-- A job that is claimed has attempts left.
claimed_ids_sound :
    (now : ℕ) (o : ClaimOptions) (locked : ℕ → Bool) (js : List Job) (x : Job)
    → Unique Job.id js
    → Member x js
    → mem_id x.id (claimed_ids now o locked js) ≡ true
    → x.attempt_count + 1 ≤ x.max_attempts
unfolding claimed_ids is_claimable
claimed_ids_sound now o locked js x u m h =
    let passed =
      ordered_batch_sound Job.created_at Job.id (λ j. is_claimable now o j && not (locked j.id))
        (if_none o.limit 10) js x u m h in
    ground arith

-- A claim takes no job over its greatest number of attempts, if no two jobs have one id.
pub claim_due_automation_jobs-IsWithin :
    (now : ℕ) (o : ClaimOptions) (locked : ℕ → Bool) (s : Store)
    → Unique Job.id s.jobs
    → All IsWithin s.jobs
    → All IsWithin (claim_due_automation_jobs now o locked s).1.jobs
unfolding claim_due_automation_jobs fail_exhausted exhausted claimed
claim_due_automation_jobs-IsWithin now o locked s u h =
    let js = (fail_exhausted now s).jobs in
    let u1 : Unique Job.id js =
      Unique-update Job.id (is_exhausted now) exhausted s.jobs (λ _. refl) u in
    let h1 : All IsWithin js =
      All-update IsWithin (is_exhausted now) exhausted s.jobs (λ x _ k. k) h in
    All-updated IsWithin (λ j. mem_id j.id (claimed_ids now o locked js)) (claimed now o) js h1
      (λ x m e _. claimed_ids_sound now o locked js x u1 m e)

-- After a claim no job is left RUNNING with a lease that has ended and no attempts left: each has
-- failed.
pub claim_due_automation_jobs_completes :
    (now : ℕ) (o : ClaimOptions) (locked : ℕ → Bool) (s : Store)
    → count_where (is_exhausted now) (claim_due_automation_jobs now o locked s).1.jobs ≡ 0
unfolding claim_due_automation_jobs fail_exhausted exhausted claimed is_exhausted
claim_due_automation_jobs_completes now o locked s =
    let js = (fail_exhausted now s).jobs in
    let none_left : count_where (is_exhausted now) js ≡ 0 =
      count-zero_after (is_exhausted now) (is_exhausted now) exhausted s.jobs
        (All-of_Member _ s.jobs (λ x _ k. k)) (λ x. refl) in
    let no_more =
      count-update_le (is_exhausted now) (λ j. mem_id j.id (claimed_ids now o locked js))
        (claimed now o) js (λ x _ k. absurd (ground arith)) in
    omega (arith, none_left, no_more)
