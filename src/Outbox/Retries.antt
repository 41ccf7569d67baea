-- ===== src/Outbox/Retries.antt =====
-- An event whose handling always fails (apps/worker/src/outbox-processor.ts): the
-- update of its row.
use d_n_i_p.Prelude.{ℕ, ◌+◌, ◌≤◌, ◌<◌, ◌≡◌, true, Option, List, ◌==◌, find?, arith}
use d_n_i_p.Outbox.Model.{OutboxStatus, OutboxEvent, is_due}
use d_n_i_p.Outbox.Process.{backoff_delay, fail_row}

abbrev pub find_event : ℕ → List OutboxEvent → Option OutboxEvent
find_event i = find? (λ e. e.id == i)

-- A minute is the longest delay.
pub backoff_delay-le : (n : ℕ) → backoff_delay n ≤ 60000
unfolding backoff_delay
backoff_delay-le n = omega arith

pub fail_row-id : (now m r x : ℕ) (e : OutboxEvent) → (fail_row now m r x e).id ≡ e.id
unfolding fail_row
fail_row-id now m r x e = ground arith

pub fail_row-event_type :
    (now m r x : ℕ) (e : OutboxEvent) → (fail_row now m r x e).event_type ≡ e.event_type
unfolding fail_row
fail_row-event_type now m r x e = ground arith

pub fail_row-last :
    (now m r x : ℕ) (e : OutboxEvent)
    → m ≤ r + 1
    → ((fail_row now m r x e).status ≡ OutboxStatus.failed)
      × ((fail_row now m r x e).retry_count ≡ r + 1)
unfolding fail_row
fail_row-last now m r x e k = ground arith

-- With retries left the event is due again within a minute.
pub fail_row-next :
    (now m r x : ℕ) (e : OutboxEvent)
    → r + 1 < m
    → ((fail_row now m r x e).status ≡ OutboxStatus.pending)
      × ((fail_row now m r x e).retry_count ≡ r + 1)
      × (is_due (now + 60000) (fail_row now m r x e).next_attempt_at ≡ true)
unfolding fail_row
fail_row-next now m r x e k = ground (arith, backoff_delay-le (r + 1))
