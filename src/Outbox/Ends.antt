-- ===== src/Outbox/Ends.antt =====
-- Runs of the worker over an event whose handling always fails
-- (apps/worker/src/outbox-processor.ts).
use d_n_i_p.Prelude.{
  ℕ, zero, suc, ◌+◌, ◌-◌, ◌≤◌, ◌<◌, ◌≡◌, ◌∙◌, refl, ◌⊎◌, inl, inr, Bool, true, false, Option, none,
  some, List, [], ◌∷◌, length, or_default, All, arith, is_some,
}
use d_n_i_p.Outbox.Model.{OutboxStatus, OutboxType, OutboxEvent, is_due}
use d_n_i_p.Outbox.Dispatch.{Handlers, Features, dispatch}
use d_n_i_p.Outbox.Process.{
  Options, max_of, is_claimable, claim_row, fail_row, process_outbox_events,
}
use d_n_i_p.Outbox.Retries.{find_event, fail_row-event_type, fail_row-last, fail_row-next}
use d_n_i_p.Outbox.Delivery.{process_outbox_events-over}
use d_n_i_p.Outbox.Fits.{Fits, Calm}
use d_n_i_p.Outbox.Attempt.{run-fails, run-Fits}

-- What a run meets: the time of its claim, the time at which it settles each event, the rows that
-- are locked, and what others do to the table before it and while it handles an event.
pub record Run : Type 0 where
  pub now : ℕ
  pub clock : ℕ → ℕ
  pub locked : ℕ → Bool
  pub before : List OutboxEvent → List OutboxEvent
  pub meanwhile : ℕ → List OutboxEvent → List OutboxEvent

abbrev pub IsCalm : Options → ℕ → Run → Type 0
IsCalm o i r = (r.locked i ≡ false) × Calm o i r.before × ((j : ℕ) → Calm o i (r.meanwhile j))

-- The first run is at `t` or later, and each next one at least a minute after the settlement of
-- the event in the one before.
abbrev pub IsSpaced : ℕ → ℕ → List Run → Type 0
IsSpaced i t [] = Unit
IsSpaced i t (r ∷ rs) = (t ≤ r.now) × IsSpaced i (r.clock i + 60000) rs

due-later : (t n : ℕ) (next : Option ℕ) → t ≤ n → is_due t next ≡ true → is_due n next ≡ true
due-later t n none k h = refl
due-later t n (some x) k h = ground arith

zero_or_suc : (k : ℕ) → (k ≡ 0) ⊎ ((n : ℕ) × (k ≡ suc n))
zero_or_suc zero = inl refl
zero_or_suc (suc n) = inr (n, refl)

module _ {W : Type 0} (h : Handlers W) (f : Features) (o : Options) where
  -- Runs of the worker one after another.
  unfoldable pub run_all : List Run → List OutboxEvent × W → List OutboxEvent × W
  run_all [] s = s
  run_all (r ∷ rs) (es, w) =
      run_all rs (process_outbox_events h f o r.now r.clock r.locked r.meanwhile (r.before es, w))

  module _ (i : ℕ) where
    -- An event that is FAILED stays so.
    run_all-failed :
        (rs : List Run) (es : List OutboxEvent) (w : W) (e : OutboxEvent)
        → All (IsCalm o i) rs
        → Fits o es
        → find_event i es ≡ some e
        → e.status ≡ OutboxStatus.failed
        → find_event i (run_all rs (es, w)).0 ≡ some e
    unfolding run_all
    run_all-failed [] es w e calm fits a b = a
    run_all-failed (r ∷ rs) es w e calm fits a b =
        let (_, before, meanwhile) = calm.0 in
        let fits1 = before.0 es fits in
        run_all-failed rs _ _ e (calm.1)
          (run-Fits h f o i r.now r.clock r.locked r.meanwhile (r.before es) w meanwhile fits1)
          (process_outbox_events-over h f o r.now r.clock r.locked r.meanwhile (r.before es) w i e
            (fits1.0) (λ j xs k. (meanwhile j).1 xs e k) (before.1 es e a) (rw b refl))
          b

    module _ (ty : OutboxType)
        (bad : (x : OutboxEvent) (v : W)
          → x.id ≡ i
          → x.event_type ≡ ty
          → is_some ((dispatch h f x v).0) ≡ true) where
      ends :
          (k : ℕ) (rs : List Run) (t : ℕ) (es : List OutboxEvent) (w : W) (e : OutboxEvent)
          → All (IsCalm o i) rs
          → Fits o es
          → e.event_type ≡ ty
          → find_event i es ≡ some e
          → e.status ≡ OutboxStatus.pending
          → is_due t e.next_attempt_at ≡ true
          → e.retry_count + suc k ≡ max_of o
          → IsSpaced i t rs
          → suc k ≤ length rs
          → (e' : OutboxEvent) × (find_event i (run_all rs (es, w)).0 ≡ some e')
            × (e'.status ≡ OutboxStatus.failed)
            × (e'.retry_count ≡ max_of o)
      unfolding run_all is_claimable claim_row
      ends k [] t es w e calm fits typed a pend due left spaced enough = absurd (omega arith)
      ends k (r ∷ rs) t es w e calm fits typed a pend due left spaced enough =
          let (free, before, meanwhile) = calm.0 in
          let fits1 = before.0 es fits in
          let can : is_claimable r.now (or_default o.lease_timeout_minutes 5) e ≡ true =
            rw (is_claimable, pend, due-later t r.now e.next_attempt_at (spaced.0) due) refl in
          let (message, after) =
            run-fails h f o i ty bad r.now r.clock r.locked r.meanwhile (r.before es) w e meanwhile
              fits1 free (before.1 es e a) typed can in
          let e1 = claim_row o.worker_id r.now e in
          let row = fail_row (r.clock i) (max_of o) e.retry_count message e1 in
          let s1 =
            process_outbox_events h f o r.now r.clock r.locked r.meanwhile (r.before es, w) in
          let fits2 =
            run-Fits h f o i r.now r.clock r.locked r.meanwhile (r.before es) w meanwhile fits1 in
          elim (zero_or_suc k) [
            | inl z ↦
                let (over, count) =
                  fail_row-last (r.clock i) (max_of o) e.retry_count message e1 (omega arith) in
                (
                  row,
                  run_all-failed rs (s1.0) (s1.1) row (calm.1) fits2 after over,
                  over,
                  omega (arith, count),
                )
            | inr (n, z) ↦
                let (again, count, soon) =
                  fail_row-next (r.clock i) (max_of o) e.retry_count message e1 (omega arith) in
                let kept =
                  fail_row-event_type (r.clock i) (max_of o) e.retry_count message e1 ∙ typed in
                ends n rs (r.clock i + 60000) (s1.0) (s1.1) row (calm.1) fits2 kept after again soon
                  (omega (arith, count)) (spaced.1) (omega arith)
          ]

      -- An event of a type whose handling always fails, and that waits for its first attempt or a
      -- later one, is FAILED with all its retries used up, once the worker has run as often as the
      -- event has retries left. Each run comes a minute or more after the event was settled in the
      -- one before, at the start and after what others do no two events have one id and the open events are
      -- no more than a batch, no other transaction locks the event's row, and no other worker
      -- changes it.
      pub run_all_ends :
          (rs : List Run) (t : ℕ) (es : List OutboxEvent) (w : W) (e : OutboxEvent)
          → All (IsCalm o i) rs
          → Fits o es
          → e.event_type ≡ ty
          → find_event i es ≡ some e
          → e.status ≡ OutboxStatus.pending
          → is_due t e.next_attempt_at ≡ true
          → e.retry_count < max_of o
          → IsSpaced i t rs
          → max_of o ≤ e.retry_count + length rs
          → (e' : OutboxEvent) × (find_event i (run_all rs (es, w)).0 ≡ some e')
            × (e'.status ≡ OutboxStatus.failed)
            × (e'.retry_count ≡ max_of o)
      run_all_ends rs t es w e calm fits typed a pend due left spaced enough =
          ends (max_of o - (e.retry_count + 1)) rs t es w e calm fits typed a pend due (omega arith)
            spaced (omega arith)
