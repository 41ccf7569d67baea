-- ===== src/Outbox/Attempt.antt =====
-- One run of the worker, with an event whose handling always fails
-- (apps/worker/src/outbox-processor.ts).
use d_n_i_p.Prelude.{
  ℕ, ◌≡◌, ◌∙◌, refl, sym, inl, inr, Bool, true, false, some, List, [], ◌∷◌, ◌==◌, filter_where,
  mem_id, or_default, Member, arith, Bool-cases, Option-cases, is_some,
}
use d_n_i_p.Prelude.Rows.{find?-sound, find?-Member, find?-update, Unique-same}
use d_n_i_p.Prelude.Batches.{filter_where-Member, Member-filter}
use d_n_i_p.Outbox.Model.{OutboxType, OutboxEvent, held_by}
use d_n_i_p.Outbox.Dispatch.{Handlers, Features, dispatch}
use d_n_i_p.Outbox.Process.{
  Options, max_of, is_claimable, claim_row, claimed_ids, claim, fail_row, settle_row, process_event,
  process_all, process_outbox_events,
}
use d_n_i_p.Outbox.Retries.{find_event}
use d_n_i_p.Outbox.Delivery.{settle-fail}
use d_n_i_p.Outbox.Fits.{
  Fits, Calm, claimed_complete, claim-Fits, settle_row-Fits, settle-loose, fail_row-loose,
}

pub claim-found :
    (now : ℕ) (o : Options) (ids : List ℕ) (i : ℕ) (es : List OutboxEvent) (e : OutboxEvent)
    → find_event i es ≡ some e
    → mem_id e.id ids ≡ true
    → find_event i (claim now o ids es) ≡ some (claim_row o.worker_id now e)
unfolding claim claim_row
claim-found now o ids i es e h m =
    find?-update (λ x. x.id == i) (λ x. mem_id x.id ids) (claim_row o.worker_id now) es
      (λ x _. refl)
    ∙ rw h (rw m refl)

module _ {W : Type 0} (h : Handlers W) (f : Features) (o : Options) (i : ℕ) where
  pub process_all-Fits :
      (clock : ℕ → ℕ) (meanwhile : ℕ → List OutboxEvent → List OutboxEvent) (vs : List OutboxEvent)
      (es : List OutboxEvent) (w : W)
      → ((j : ℕ) → Calm o i (meanwhile j))
      → Fits o es
      → Fits o (process_all h f o clock meanwhile vs (es, w)).0
  unfolding process_all process_event
  process_all-Fits clock meanwhile [] es w calm fits = fits
  process_all-Fits clock meanwhile (v ∷ vs) es w calm fits =
      process_all-Fits clock meanwhile vs _ _ calm (
        settle_row-Fits (clock v.id) o v ((dispatch h f v w).0) (meanwhile v.id es)
          ((calm v.id).0 es fits))

  -- A row that the worker does not hold is left by all of a run's events.
  process_all-loose :
      (clock : ℕ → ℕ) (meanwhile : ℕ → List OutboxEvent → List OutboxEvent) (vs : List OutboxEvent)
      (es : List OutboxEvent) (w : W) (e : OutboxEvent)
      → ((j : ℕ) → Calm o i (meanwhile j))
      → find_event i es ≡ some e
      → ((j : ℕ) → held_by o.worker_id j e ≡ false)
      → find_event i (process_all h f o clock meanwhile vs (es, w)).0 ≡ some e
  unfolding process_all process_event
  process_all-loose clock meanwhile [] es w e calm a loose = a
  process_all-loose clock meanwhile (v ∷ vs) es w e calm a loose =
      process_all-loose clock meanwhile vs _ _ e calm
        (settle-loose (clock v.id) o v ((dispatch h f v w).0) i (meanwhile v.id es) e
          ((calm v.id).1 es e a) (loose v.id))
        loose

  pub run-Fits :
      (now : ℕ) (clock : ℕ → ℕ) (locked : ℕ → Bool)
      (meanwhile : ℕ → List OutboxEvent → List OutboxEvent) (es : List OutboxEvent) (w : W)
      → ((j : ℕ) → Calm o i (meanwhile j))
      → Fits o es
      → Fits o (process_outbox_events h f o now clock locked meanwhile (es, w)).0
  unfolding process_outbox_events
  run-Fits now clock locked meanwhile es w calm fits =
      let ids = claimed_ids now o locked es in
      process_all-Fits clock meanwhile (filter_where (λ e. mem_id e.id ids) (claim now o ids es))
        (claim now o ids es) w calm (claim-Fits now o locked es fits)

module _ {W : Type 0} (h : Handlers W) (f : Features) (o : Options) (i : ℕ) (ty : OutboxType)
    (bad : (x : OutboxEvent) (v : W)
      → x.id ≡ i
      → x.event_type ≡ ty
      → is_some ((dispatch h f x v).0) ≡ true) where
  -- The row of a claimed event after the events of the run: its attempt has failed.
  pub process_all-fails :
      (clock : ℕ → ℕ) (meanwhile : ℕ → List OutboxEvent → List OutboxEvent) (vs : List OutboxEvent)
      (es : List OutboxEvent) (w : W) (e : OutboxEvent)
      → ((j : ℕ) → Calm o i (meanwhile j))
      → find_event i es ≡ some e
      → e.id ≡ i
      → e.event_type ≡ ty
      → held_by o.worker_id i e ≡ true
      → Member e vs
      → ((v : OutboxEvent) → Member v vs → v.id ≡ i → v ≡ e)
      → (message : ℕ) × (find_event i (process_all h f o clock meanwhile vs (es, w)).0
          ≡ some (fail_row (clock i) (max_of o) e.retry_count message e))
  unfolding process_all process_event
  process_all-fails clock meanwhile [] es w e calm a at_i typed held m one = absurd m
  process_all-fails clock meanwhile (v ∷ vs) es w e calm a at_i typed held m one =
      let rows = meanwhile v.id es in
      let there : find_event i rows ≡ some e = (calm v.id).1 es e a in
      elim (Bool-cases (v.id == i)) [
        | inl here ↦
            let same : v.id ≡ i = ground arith in
            let is_e : v ≡ e = one v (inl refl) same in
            elim (Option-cases ((dispatch h f v w).0)) [
              | inl k ↦ absurd (let k' = bad v w same (rw is_e typed) in ground arith)
              | inr (message, k) ↦
                  let row = fail_row (clock i) (max_of o) e.retry_count message e in
                  let holds : held_by o.worker_id v.id e ≡ true = rw same held in
                  let settled : find_event i (settle_row (clock v.id) o v (some message) rows)
                      ≡ some row =
                    settle-fail (clock v.id) o v message i rows e there
                    ∙ rw holds (rw (same, is_e) refl) in
                  (
                    message,
                    rw (process_all, process_event, k)
                        (process_all-loose h f o i clock meanwhile vs
                          (settle_row (clock v.id) o v (some message) rows) ((dispatch h f v w).1)
                          row calm settled
                          (λ j.
                            fail_row-loose (clock i) (max_of o) e.retry_count message o.worker_id j
                              e)),
                  )
            ]
        | inr other ↦
            let loose : held_by o.worker_id v.id e ≡ false = ground arith in
            let later : Member e vs = elim m [ inl same ↦ absurd (ground arith) | inr k ↦ k ] in
            process_all-fails clock meanwhile vs _ _ e calm
              (settle-loose (clock v.id) o v ((dispatch h f v w).0) i rows e there loose) at_i typed
              held later (λ x k. one x (inr k))
      ]

  -- A run over a table that fits, with an event that it can claim.
  pub run-fails :
      (now : ℕ) (clock : ℕ → ℕ) (locked : ℕ → Bool)
      (meanwhile : ℕ → List OutboxEvent → List OutboxEvent) (es : List OutboxEvent) (w : W)
      (e : OutboxEvent)
      → ((j : ℕ) → Calm o i (meanwhile j))
      → Fits o es
      → locked i ≡ false
      → find_event i es ≡ some e
      → e.event_type ≡ ty
      → is_claimable now (or_default o.lease_timeout_minutes 5) e ≡ true
      → (message : ℕ) × (find_event i
            (process_outbox_events h f o now clock locked meanwhile (es, w)).0
          ≡ some
              (fail_row (clock i) (max_of o) e.retry_count message (claim_row o.worker_id now e)))
  unfolding process_outbox_events claim_row
  run-fails now clock locked meanwhile es w e calm fits free a typed can =
      let ids = claimed_ids now o locked es in
      let es1 = claim now o ids es in
      let e1 = claim_row o.worker_id now e in
      let at_i : (e.id == i) ≡ true = find?-sound (λ x. x.id == i) es a in
      let same : e.id ≡ i = ground arith in
      let unlocked : locked e.id ≡ false = rw same free in
      let chosen =
        claimed_complete now o locked es e fits (find?-Member (λ x. x.id == i) es a) unlocked can in
      let there = claim-found now o ids i es e a chosen in
      let m1 = find?-Member (λ x. x.id == i) es1 there in
      let unique = (claim-Fits now o locked es fits).0 in
      process_all-fails clock meanwhile (filter_where (λ x. mem_id x.id ids) es1) es1 w e1 calm
        there same typed (ground arith) (Member-filter (λ x. mem_id x.id ids) es1 e1 m1 chosen)
        (λ v mv here.
          Unique-same OutboxEvent.id es1 v e1 unique
            ((filter_where-Member (λ x. mem_id x.id ids) es1 v mv).0) m1 (here ∙ sym same))
