-- ===== src/Jobs/Sent.antt =====
-- A job is enqueued once (packages/database/src/domain/automation-engine.ts).
use d_n_i_p.Prelude.{
  ℕ, ◌≡◌, ◌∙◌, refl, ap, inl, inr, true, Option, none, some, [], ◌∷◌, find?, ==_refl, Option-cases,
}
use d_n_i_p.Prelude.Rows.{find?-append_none}
use d_n_i_p.Jobs.Model.{Job, JobType, JobKey, same_key, Payload, Store}
use d_n_i_p.Jobs.Enqueue.{Draw, job_of, new_job, execute, OrderMail, enqueue_order_paid_email_job}

same_key_refl : (k : JobKey) → same_key k k ≡ true
same_key_refl (JobKey.order_paid_email a) = ==_refl a
same_key_refl (JobKey.license_provisioned_email a) = ==_refl a
same_key_refl (JobKey.other a) = ==_refl a

execute-found :
    (w : Draw) (ty : JobType) (k : JobKey) (r : ℕ) (p : Option ℕ → Payload) (s : Store) (j : Job)
    → find? (job_of k) s.jobs ≡ some j
    → execute w ty k r p s ≡ (j, s)
unfolding execute
execute-found w ty k r p s j h = rw (execute, h) refl

-- The job of the key is there afterwards.
execute-stored :
    (w : Draw) (ty : JobType) (k : JobKey) (r : ℕ) (p : Option ℕ → Payload) (s : Store)
    → find? (job_of k) (execute w ty k r p s).1.jobs ≡ some ((execute w ty k r p s).0)
unfolding execute new_job
execute-stored w ty k r p s = elim (Option-cases (find? (job_of k) s.jobs)) [
  | inr (j, h) ↦ rw (execute, h) h
  | inl h ↦
      let j = new_job w ty k (p (some w.delivery_id)) in
      rw (execute, h) (find?-append_none (job_of k) s.jobs (j ∷ []) h ∙ rw (same_key_refl k) refl)
]

execute_again :
    (w w' : Draw) (ty : JobType) (k : JobKey) (r : ℕ) (p : Option ℕ → Payload) (s : Store)
    → execute w' ty k r p (execute w ty k r p s).1 ≡ execute w ty k r p s
execute_again w w' ty k r p s =
    execute-found w' ty k r p (execute w ty k r p s).1 ((execute w ty k r p s).0)
      (execute-stored w ty k r p s)

-- The e-mail job of a paid order, enqueued again, is the job of before, and nothing is written.
pub enqueue_order_paid_email_job_again :
    (w w' : Draw) (find_order : ℕ → Option OrderMail) (order_id : ℕ) (s : Store)
    → enqueue_order_paid_email_job w' find_order order_id
        (enqueue_order_paid_email_job w find_order order_id s).1
      ≡ enqueue_order_paid_email_job w find_order order_id s
unfolding enqueue_order_paid_email_job
enqueue_order_paid_email_job_again w w' find_order order_id s =
    elim (Option-cases (find_order order_id)) [
      | inl h ↦
          let run : (v : Draw) → enqueue_order_paid_email_job v find_order order_id s ≡ (none, s) =
            λ v. rw (enqueue_order_paid_email_job, h) refl in
          rw (run w) (run w')
      | inr (o, h) ↦ elim (Option-cases o.email) [
        | inl k ↦
            let run : (v : Draw)
                → enqueue_order_paid_email_job v find_order order_id s ≡ (none, s) =
              λ v. rw (enqueue_order_paid_email_job, h, k) refl in
            rw (run w) (run w')
        | inr (r, k) ↦
            let key = JobKey.order_paid_email order_id in
            let p = Payload.order_paid order_id r o.currency o.total in
            let run : (v : Draw) (t : Store)
                → enqueue_order_paid_email_job v find_order order_id t ≡ (
                  some ((execute v JobType.order_paid_email key r p t).0),
                  (execute v JobType.order_paid_email key r p t).1,
                ) =
              λ v t. rw (enqueue_order_paid_email_job, h, k) refl in
            rw (run w s) (
              run w' (execute w JobType.order_paid_email key r p s).1
              ∙ ap (λ d. (some (d.0), d.1)) (execute_again w w' JobType.order_paid_email key r p s))
      ]
    ]
