-- ===== src/Outbox/Examples.antt =====
-- One ORDER_PAID event, handlers that fail, and handlers that succeed.
use d_n_i_p.Prelude.{ℕ, ◌+◌, ◌≡◌, refl, true, false, none, some, [], ◌∷◌, arith, is_some}
use d_n_i_p.Outbox.Model.{OutboxStatus, OutboxType, AggregateType, OutboxEvent, held_by}
use d_n_i_p.Outbox.Dispatch.{
  Handler, Handlers, Features, guarded, on_order_paid, on_order_refunded, dispatch,
}
use d_n_i_p.Outbox.Process.{Options, settle_row, finish_row, process_event, process_outbox_events}
use d_n_i_p.Outbox.Retries.{find_event}
use d_n_i_p.Outbox.Ends.{Run, IsCalm, run_all, run_all_ends}
use d_n_i_p.Outbox.Delivery.{process_outbox_events-over, process_event-processed}

abbrev all_of : Handler ℕ → Handlers ℕ
all_of h = record {
  issue_entitlements = h;
  enqueue_order_paid_email = h;
  process_affiliate = h;
  provision_hosting = h;
  record_ledger = h;
  clawback_affiliate = h;
  suspend_hosting = h;
  record_refund = h;
  suspend_for_entitlement = h;
  notify_ticket_created = h;
  notify_ticket_replied = h;
  notify_service_inquiry = h;
}

abbrev failing : Handlers ℕ
failing = all_of (λ i n. (some 44, n))

abbrev counting : Handlers ℕ
counting = all_of (λ i n. (none, n))

abbrev features : Features
features = record { affiliate = false; hosting = false; finance = true }

abbrev options : Options
options = record {
  worker_id = 8;
  batch_size = none;
  max_retries = some 2;
  lease_timeout_minutes = none;
}

abbrev an_event : OutboxEvent
an_event = record {
  id = 1;
  event_type = OutboxType.unsupported;
  aggregate_type = AggregateType.order;
  aggregate_id = 5;
  payload_id = some 5;
  status = OutboxStatus.pending;
  retry_count = 0;
  lock_owner = none;
  locked_at = none;
  next_attempt_at = none;
  created_at = 100;
  error = none;
}

abbrev old_event : OutboxEvent
old_event = record an_event { id = 2; status = OutboxStatus.processed }

abbrev paid_event : OutboxEvent
paid_event = record an_event { id = 3; event_type = OutboxType.order_paid }

-- The worker refuses a type that it does not know.
always :
    (x : OutboxEvent) (v : ℕ)
    → x.id ≡ 1
    → x.event_type ≡ OutboxType.unsupported
    → is_some ((dispatch failing features x v).0) ≡ true
unfolding dispatch guarded on_order_paid on_order_refunded
always x v h k = rw (dispatch, k) refl

-- A run at `now` that settles its events a second later.
abbrev run_at : ℕ → Run
run_at now = record {
  now = now;
  clock = λ j. now + 1000;
  locked = λ j. false;
  before = λ es. es;
  meanwhile = λ j es. es;
}

run_at-IsCalm : (now : ℕ) → IsCalm options 1 (run_at now)
run_at-IsCalm now = (refl, ((λ xs k. k), (λ xs e k. k)), (λ j. ((λ xs k. k), (λ xs e k. k))))

run_all_ends_example :
    (e' : OutboxEvent) × (find_event 1
        (run_all failing features options
          (run_at 1000 ∷ run_at 70000 ∷ [])
          (paid_event ∷ an_event ∷ [], 0)).0
      ≡ some e')
    × (e'.status ≡ OutboxStatus.failed)
    × (e'.retry_count ≡ 2)
run_all_ends_example =
    run_all_ends failing features options 1 OutboxType.unsupported always
      (run_at 1000 ∷ run_at 70000 ∷ []) 0 (paid_event ∷ an_event ∷ []) 0 an_event
      (run_at-IsCalm 1000, (run_at-IsCalm 70000, tt))
      (((λ h. ground arith, tt), (tt, tt)), omega arith) refl refl refl refl (omega arith)
      (omega arith, (omega arith, tt)) (omega arith)

process_outbox_events-over_example :
    find_event 2
      (process_outbox_events counting features options 1000
        (λ i. 1100)
        (λ i. false)
        (λ i es. es)
        (an_event ∷ old_event ∷ [], 0)).0
    ≡ some old_event
process_outbox_events-over_example =
    process_outbox_events-over counting features options 1000 (λ i. 1100) (λ i. false) (λ i es. es)
      (an_event ∷ old_event ∷ []) 0 2 old_event ((λ h. ground arith, tt), (tt, tt)) (λ j xs h. h)
      refl refl

abbrev claimed : OutboxEvent
claimed = record paid_event {
  status = OutboxStatus.processing;
  lock_owner = some 8;
  locked_at = some 900;
}

finished :
    find_event 3
      (process_event counting features options 1000 (λ es. es) claimed (claimed ∷ [], 0)).0
    ≡ some (finish_row claimed)
unfolding process_event settle_row dispatch guarded on_order_paid
finished = refl

process_event-processed_example :
    ((dispatch counting features claimed 0).0 ≡ none) × (held_by 8 3 claimed ≡ true)
unfolding finish_row
process_event-processed_example =
    process_event-processed counting features options 1000 (λ es. es) claimed (claimed ∷ []) 0 3
      claimed (finish_row claimed) refl finished (λ h. ground arith) refl
