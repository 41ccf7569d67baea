-- ===== src/Outbox/Delivery.antt =====
-- What a run of the worker leaves alone, and what it marks PROCESSED
-- (apps/worker/src/outbox-processor.ts).
use d_n_i_p.Prelude.{
  ℕ, ◌≡◌, ◌≢◌, ◌∙◌, refl, inl, inr, Bool, true, false, not, ◌&&◌, Option, none, some, List, [], ◌∷◌,
  ◌==◌, filter_where, mem_id, or_default, Member, Unique, arith, Bool-cases, Option-cases,
  if◌then◌else◌,
}
use d_n_i_p.Prelude.Rows.{find?-Member, find?-update}
use d_n_i_p.Prelude.Batches.{ordered_batch_sound}
use d_n_i_p.Outbox.Model.{OutboxStatus, OutboxEvent, held_by}
use d_n_i_p.Outbox.Dispatch.{Handlers, Features, dispatch}
use d_n_i_p.Outbox.Process.{
  Options, max_of, is_claimable, claim_row, claimed_ids, claim, finish_row, fail_row, settle_row,
  process_event, process_all, process_outbox_events,
}
use d_n_i_p.Outbox.Retries.{find_event, fail_row-id}

-- An event that is over.
abbrev pub is_over : OutboxStatus → Bool
is_over OutboxStatus.processed = true
is_over OutboxStatus.failed = true
is_over _ = false

-- A row that is claimed could be claimed.
pub claimed_sound :
    (now : ℕ) (o : Options) (locked : ℕ → Bool) (es : List OutboxEvent) (x : OutboxEvent)
    → Unique OutboxEvent.id es
    → Member x es
    → mem_id x.id (claimed_ids now o locked es) ≡ true
    → is_claimable now (or_default o.lease_timeout_minutes 5) x ≡ true
unfolding claimed_ids
claimed_sound now o locked es x u m h =
    let p = λ (e : OutboxEvent).
      is_claimable now (or_default o.lease_timeout_minutes 5) e && not (locked e.id) in
    let passed : p x ≡ true =
      ordered_batch_sound OutboxEvent.created_at OutboxEvent.id p (or_default o.batch_size 10) es x
        u m h in
    ground arith

pub is_over-unclaimable :
    (now lease : ℕ) (e : OutboxEvent) → is_over e.status ≡ true → is_claimable now lease e ≡ false
unfolding is_claimable
is_over-unclaimable now lease e h = ground arith

claim-over :
    (now : ℕ) (o : Options) (locked : ℕ → Bool) (i : ℕ) (es : List OutboxEvent) (e : OutboxEvent)
    → Unique OutboxEvent.id es
    → find_event i es ≡ some e
    → is_over e.status ≡ true
    → find_event i (claim now o (claimed_ids now o locked es) es) ≡ some e
unfolding claim claim_row
claim-over now o locked i es e u h k =
    let ids = claimed_ids now o locked es in
    let after =
      find?-update (λ x. x.id == i) (λ x. mem_id x.id ids) (claim_row o.worker_id now) es
        (λ x _. refl) in
    elim (Bool-cases (mem_id e.id ids)) [
      | inr b ↦ after ∙ rw h (rw b refl)
      | inl b ↦
          let can = claimed_sound now o locked es e u (find?-Member (λ x. x.id == i) es h) b in
          absurd
            (ground (arith, is_over-unclaimable now (or_default o.lease_timeout_minutes 5) e k))
    ]

-- An outcome is written to a row that the worker holds, and to no other.
pub settle-finish :
    (now : ℕ) (o : Options) (v : OutboxEvent) (i : ℕ) (es : List OutboxEvent) (e : OutboxEvent)
    → find_event i es ≡ some e
    → find_event i (settle_row now o v none es)
      ≡ some (if held_by o.worker_id v.id e then finish_row e else e)
unfolding settle_row finish_row
settle-finish now o v i es e h =
    find?-update (λ x. x.id == i) (held_by o.worker_id v.id) finish_row es (λ x _. refl) ∙ rw h refl

pub settle-fail :
    (now : ℕ) (o : Options) (v : OutboxEvent) (m i : ℕ) (es : List OutboxEvent) (e : OutboxEvent)
    → find_event i es ≡ some e
    → find_event i (settle_row now o v (some m) es)
      ≡ some (if held_by o.worker_id v.id e then fail_row now (max_of o) v.retry_count m e else e)
unfolding settle_row
settle-fail now o v m i es e h =
    find?-update (λ x. x.id == i) (held_by o.worker_id v.id)
      (fail_row now (max_of o) v.retry_count m) es
      (λ x _. rw (fail_row-id now (max_of o) v.retry_count m x) refl)
    ∙ rw h refl

settle-over :
    (now : ℕ) (o : Options) (v : OutboxEvent) (r : Option ℕ) (i : ℕ) (es : List OutboxEvent)
    (e : OutboxEvent)
    → find_event i es ≡ some e
    → is_over e.status ≡ true
    → find_event i (settle_row now o v r es) ≡ some e
settle-over now o v none i es e h k =
    let loose : held_by o.worker_id v.id e ≡ false = ground arith in
    settle-finish now o v i es e h ∙ rw loose refl
settle-over now o v (some m) i es e h k =
    let loose : held_by o.worker_id v.id e ≡ false = ground arith in
    settle-fail now o v m i es e h ∙ rw loose refl

fail_row-unprocessed :
    (now m r x : ℕ) (e : OutboxEvent) → (fail_row now m r x e).status ≢ OutboxStatus.processed
unfolding fail_row
fail_row-unprocessed now m r x e h = ground arith

module _ {W : Type 0} (h : Handlers W) (f : Features) (o : Options) where
  pub process_all-over :
      (clock : ℕ → ℕ) (meanwhile : ℕ → List OutboxEvent → List OutboxEvent) (vs : List OutboxEvent)
      (es : List OutboxEvent) (w : W) (i : ℕ) (e : OutboxEvent)
      → ((j : ℕ) (xs : List OutboxEvent)
          → find_event i xs ≡ some e
          → find_event i (meanwhile j xs) ≡ some e)
      → find_event i es ≡ some e
      → is_over e.status ≡ true
      → find_event i (process_all h f o clock meanwhile vs (es, w)).0 ≡ some e
  unfolding process_all process_event
  process_all-over clock meanwhile [] es w i e calm a k = a
  process_all-over clock meanwhile (v ∷ vs) es w i e calm a k =
      process_all-over clock meanwhile vs _ _ i e calm
        (settle-over (clock v.id) o v ((dispatch h f v w).0) i (meanwhile v.id es) e
          (calm v.id es a) k)
        k

  -- A run changes no event that is PROCESSED or FAILED, if the other workers do not meanwhile,
  -- and no two events have one id.
  pub process_outbox_events-over :
      (now : ℕ) (clock : ℕ → ℕ) (locked : ℕ → Bool)
      (meanwhile : ℕ → List OutboxEvent → List OutboxEvent) (es : List OutboxEvent) (w : W) (i : ℕ)
      (e : OutboxEvent)
      → Unique OutboxEvent.id es
      → ((j : ℕ) (xs : List OutboxEvent)
          → find_event i xs ≡ some e
          → find_event i (meanwhile j xs) ≡ some e)
      → find_event i es ≡ some e
      → is_over e.status ≡ true
      → find_event i (process_outbox_events h f o now clock locked meanwhile (es, w)).0 ≡ some e
  unfolding process_outbox_events
  process_outbox_events-over now clock locked meanwhile es w i e u calm a k =
      let ids = claimed_ids now o locked es in
      let es1 = claim now o ids es in
      process_all-over clock meanwhile (filter_where (λ x. mem_id x.id ids) es1) es1 w i e calm
        (claim-over now o locked i es e u a k) k

  -- An event is marked PROCESSED only when its handlers have all succeeded, by the worker that
  -- holds it.
  pub process_event-processed :
      (now : ℕ) (meanwhile : List OutboxEvent → List OutboxEvent) (v : OutboxEvent)
      (es : List OutboxEvent) (w : W) (i : ℕ) (e e' : OutboxEvent)
      → find_event i (meanwhile es) ≡ some e
      → find_event i (process_event h f o now meanwhile v (es, w)).0 ≡ some e'
      → e.status ≢ OutboxStatus.processed
      → e'.status ≡ OutboxStatus.processed
      → ((dispatch h f v w).0 ≡ none) × (held_by o.worker_id v.id e ≡ true)
  unfolding process_event
  process_event-processed now meanwhile v es w i e e' a b not_yet done =
      elim (Option-cases ((dispatch h f v w).0)) [
        | inl k ↦
            let after : find_event i (settle_row now o v none (meanwhile es)) ≡ some e' =
              rw (process_event, k) at b in
            let row = settle-finish now o v i (meanwhile es) e a in
            (
              k,
              elim (Bool-cases (held_by o.worker_id v.id e)) [
                | inl held ↦ held
                | inr loose ↦ let same : e' ≡ e = ground arith in absurd (not_yet (rw same at done))
              ],
            )
        | inr (m, k) ↦
            let after : find_event i (settle_row now o v (some m) (meanwhile es)) ≡ some e' =
              rw (process_event, k) at b in
            let row = settle-fail now o v m i (meanwhile es) e a in
            elim (Bool-cases (held_by o.worker_id v.id e)) [
              | inl held ↦
                  let same : e' ≡ fail_row now (max_of o) v.retry_count m e = ground arith in
                  absurd (fail_row-unprocessed now (max_of o) v.retry_count m e (rw same at done))
              | inr loose ↦ let same : e' ≡ e = ground arith in absurd (not_yet (rw same at done))
            ]
      ]
