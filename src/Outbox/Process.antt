-- ===== src/Outbox/Process.antt =====
-- processOutboxEvents (apps/worker/src/outbox-processor.ts).
use d_n_i_p.Prelude.{
  ℕ, zero, suc, ◌+◌, ◌*◌, min, Bool, not, ◌&&◌, ◌||◌, Option, none, some, List, [], ◌∷◌, map, leb,
  filter_where, update_where, take, mem_id, order_asc, or_default, if◌then◌else◌,
}
use d_n_i_p.Outbox.Model.{
  OutboxStatus, OutboxEvent, is_pending, is_processing, is_due, is_stale, held_by,
}
use d_n_i_p.Outbox.Dispatch.{Handlers, Features, dispatch}

-- ProcessOutboxOptions; `worker_id` is the given one or the drawn one.
pub record Options : Type 0 where
  pub worker_id : ℕ
  pub batch_size : Option ℕ
  pub max_retries : Option ℕ
  pub lease_timeout_minutes : Option ℕ

abbrev pub max_of : Options → ℕ
max_of o = or_default o.max_retries 5

unfoldable pub is_claimable : ℕ → ℕ → OutboxEvent → Bool
is_claimable now lease e =
    is_pending e.status && is_due now e.next_attempt_at
    || is_processing e.status && is_stale now lease e.locked_at

unfoldable pub claim_row : ℕ → ℕ → OutboxEvent → OutboxEvent
claim_row worker now e = record e {
  status = OutboxStatus.processing;
  lock_owner = some worker;
  locked_at = some now;
}

-- The ids that are claimed; `locked` are the rows that another claim holds, which are skipped.
unfoldable pub claimed_ids : ℕ → Options → (locked : ℕ → Bool) → List OutboxEvent → List ℕ
unfolding is_claimable order_asc
claimed_ids now o locked es = map OutboxEvent.id (
    take (or_default o.batch_size 10) (
      order_asc OutboxEvent.created_at (
        filter_where
          (λ e. is_claimable now (or_default o.lease_timeout_minutes 5) e && not (locked e.id))
          es)))

unfoldable pub claim : ℕ → Options → List ℕ → List OutboxEvent → List OutboxEvent
unfolding claim_row
claim now o ids = update_where (λ e. mem_id e.id ids) (claim_row o.worker_id now)

-- `Math.min(1000 * Math.pow(2, n), 60000)`
unfoldable pub power_of_two : ℕ → ℕ
power_of_two zero = 1
power_of_two (suc n) = 2 * power_of_two n

unfoldable pub backoff_delay : ℕ → ℕ
unfolding power_of_two
backoff_delay n = min (1000 * power_of_two n) 60000

unfoldable pub finish_row : OutboxEvent → OutboxEvent
finish_row e = record e {
  status = OutboxStatus.processed;
  lock_owner = none;
  locked_at = none;
  error = none;
}

-- The update after an error, from the retry count that the worker has read.
unfoldable pub fail_row : ℕ → ℕ → ℕ → ℕ → OutboxEvent → OutboxEvent
unfolding backoff_delay
fail_row now max_retries retry_count message e =
    if leb max_retries (retry_count + 1)
    then record e {
      status = OutboxStatus.failed;
      retry_count = retry_count + 1;
      error = some message;
      lock_owner = none;
      locked_at = none;
      next_attempt_at = none;
    }
    else record e {
      status = OutboxStatus.pending;
      retry_count = retry_count + 1;
      error = some message;
      lock_owner = none;
      locked_at = none;
      next_attempt_at = some (now + backoff_delay (retry_count + 1));
    }

-- The outcome of an event: its row is updated, if this worker still holds it.
unfoldable pub settle_row :
    ℕ → Options → OutboxEvent → Option ℕ → List OutboxEvent → List OutboxEvent
unfolding finish_row fail_row
settle_row now o e none = update_where (held_by o.worker_id e.id) finish_row
settle_row now o e (some message) =
    update_where (held_by o.worker_id e.id) (fail_row now (max_of o) e.retry_count message)

module _ {W : Type 0} (h : Handlers W) (f : Features) (o : Options) where
  -- One event. `meanwhile` is what other workers do to the table while it is handled, `now` the
  -- time after that.
  unfoldable pub process_event :
      ℕ
      → (meanwhile : List OutboxEvent → List OutboxEvent) → OutboxEvent
      → List OutboxEvent × W
      → List OutboxEvent × W
  unfolding dispatch settle_row
  process_event now meanwhile e (es, w) =
      let done = dispatch h f e w in (settle_row now o e (done.0) (meanwhile es), done.1)

  -- `for (const event of events)`
  unfoldable pub process_all :
      (clock : ℕ → ℕ)
      → (meanwhile : ℕ → List OutboxEvent → List OutboxEvent) → List OutboxEvent
      → List OutboxEvent × W
      → List OutboxEvent × W
  unfolding process_event
  process_all clock meanwhile [] s = s
  process_all clock meanwhile (e ∷ rest) s =
      process_all clock meanwhile rest (process_event (clock e.id) (meanwhile e.id) e s)

  -- A run: the claim, at the time `now`, and the events that it has claimed, each of which is
  -- settled at its own time.
  unfoldable pub process_outbox_events :
      ℕ
      → (clock : ℕ → ℕ) (locked : ℕ → Bool) (meanwhile : ℕ → List OutboxEvent → List OutboxEvent)
      → List OutboxEvent × W
      → List OutboxEvent × W
  unfolding claimed_ids claim process_all
  process_outbox_events now clock locked meanwhile (es, w) =
      let ids = claimed_ids now o locked es in
      let es1 = claim now o ids es in
      process_all clock meanwhile (filter_where (λ e. mem_id e.id ids) es1) (es1, w)
