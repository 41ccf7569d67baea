-- ===== src/Outbox/Fits.antt =====
-- Tables whose open events fit into one batch, which the operations of a run keep
-- (apps/worker/src/outbox-processor.ts).
use d_n_i_p.Prelude.{
  ℕ, ◌≤◌, ◌≡◌, ◌∙◌, refl, inl, inr, Bool, true, false, not, ◌&&◌, Option, none, some, List,
  count_where, mem_id, or_default, Member, Unique, arith, Bool-cases,
}
use d_n_i_p.Prelude.Rows.{count-update_le, Unique-update, All-of_Member}
use d_n_i_p.Prelude.Batches.{count-update_All, count_le, ordered_batch_complete}
use d_n_i_p.Outbox.Model.{OutboxEvent, held_by}
use d_n_i_p.Outbox.Process.{
  Options, max_of, is_claimable, claim_row, claimed_ids, claim, finish_row, fail_row, settle_row,
}
use d_n_i_p.Outbox.Retries.{find_event, fail_row-id}
use d_n_i_p.Outbox.Delivery.{
  is_over, claimed_sound, is_over-unclaimable, settle-finish, settle-fail,
}

abbrev pub batch_of : Options → ℕ
batch_of o = or_default o.batch_size 10

abbrev pub is_open : OutboxEvent → Bool
is_open e = not (is_over e.status)

-- No two events have one id, and the open ones are no more than a batch.
abbrev pub Fits : Options → List OutboxEvent → Type 0
Fits o es = Unique OutboxEvent.id es × (count_where is_open es ≤ batch_of o)

-- Rows that other workers may change, as long as the table fits and the row of an id is left.
abbrev pub Calm : Options → ℕ → (List OutboxEvent → List OutboxEvent) → Type 0
Calm o i f =
    ((xs : List OutboxEvent) → Fits o xs → Fits o (f xs))
    × ((xs : List OutboxEvent) (e : OutboxEvent)
        → find_event i xs ≡ some e
        → find_event i (f xs) ≡ some e)

is_claimable-open :
    (now lease : ℕ) (e : OutboxEvent) → is_claimable now lease e ≡ true → is_open e ≡ true
is_claimable-open now lease e h = elim (Bool-cases (is_over e.status)) [
  | inl k ↦ absurd (ground (arith, is_over-unclaimable now lease e k))
  | inr k ↦ rw k refl
]

pub claimed_complete :
    (now : ℕ) (o : Options) (locked : ℕ → Bool) (es : List OutboxEvent) (e : OutboxEvent)
    → Fits o es
    → Member e es
    → locked e.id ≡ false
    → is_claimable now (or_default o.lease_timeout_minutes 5) e ≡ true
    → mem_id e.id (claimed_ids now o locked es) ≡ true
unfolding claimed_ids
claimed_complete now o locked es e fits m free can =
    let p = λ (x : OutboxEvent).
      is_claimable now (or_default o.lease_timeout_minutes 5) x && not (locked x.id) in
    let few =
      count_le p is_open es
        (λ x h. is_claimable-open now (or_default o.lease_timeout_minutes 5) x (ground arith)) in
    ordered_batch_complete OutboxEvent.created_at OutboxEvent.id p (batch_of o) es e
      (omega (arith, few, fits.1)) m (ground arith)

pub claim-Fits :
    (now : ℕ) (o : Options) (locked : ℕ → Bool) (es : List OutboxEvent)
    → Fits o es
    → Fits o (claim now o (claimed_ids now o locked es) es)
unfolding claim claim_row
claim-Fits now o locked es fits =
    let ids = claimed_ids now o locked es in
    let keep =
      count-update_All is_open (λ e. mem_id e.id ids) (claim_row o.worker_id now) es
        (All-of_Member _ es (λ x m b _.
          is_claimable-open now (or_default o.lease_timeout_minutes 5) x
            (claimed_sound now o locked es x (fits.0) m b))) in
    (
      Unique-update OutboxEvent.id (λ e. mem_id e.id ids) (claim_row o.worker_id now) es (λ x. refl)
          (fits.0),
      omega (arith, keep, fits.1),
    )

held_open : (worker i : ℕ) (e : OutboxEvent) → held_by worker i e ≡ true → is_open e ≡ true
held_open worker i e h = ground arith

pub settle_row-Fits :
    (now : ℕ) (o : Options) (v : OutboxEvent) (r : Option ℕ) (es : List OutboxEvent)
    → Fits o es
    → Fits o (settle_row now o v r es)
unfolding settle_row finish_row
settle_row-Fits now o v none es fits = (
  Unique-update OutboxEvent.id (held_by o.worker_id v.id) finish_row es (λ x. refl) (fits.0),
  omega (
    arith,
    count-update_le is_open (held_by o.worker_id v.id) finish_row es
        (λ x h _. held_open o.worker_id v.id x h),
    fits.1,
  ),
)
settle_row-Fits now o v (some m) es fits =
    let g = fail_row now (max_of o) v.retry_count m in
    (
      Unique-update OutboxEvent.id (held_by o.worker_id v.id) g es
          (fail_row-id now (max_of o) v.retry_count m) (fits.0),
      omega (
        arith,
        count-update_le is_open (held_by o.worker_id v.id) g es
            (λ x h _. held_open o.worker_id v.id x h),
        fits.1,
      ),
    )

-- A row that the worker does not hold is not settled.
pub settle-loose :
    (now : ℕ) (o : Options) (v : OutboxEvent) (r : Option ℕ) (i : ℕ) (es : List OutboxEvent)
    (e : OutboxEvent)
    → find_event i es ≡ some e
    → held_by o.worker_id v.id e ≡ false
    → find_event i (settle_row now o v r es) ≡ some e
settle-loose now o v none i es e h k = settle-finish now o v i es e h ∙ rw k refl
settle-loose now o v (some m) i es e h k = settle-fail now o v m i es e h ∙ rw k refl

pub fail_row-loose :
    (now m r x worker j : ℕ) (e : OutboxEvent) → held_by worker j (fail_row now m r x e) ≡ false
unfolding fail_row
fail_row-loose now m r x worker j e = ground arith
