-- ===== src/Payment/Exact.antt =====
-- What an event has said that has paid an order, in processAuthoritativePaymentEvent
-- (apps/api/src/modules/payments/payments.service.ts).
use d_n_i_p.Prelude.{
  ℕ, ℤ, pos, negsuc, ◌≡◌, ◌≢◌, ◌∙◌, refl, sym, ap, inl, inr, Bool, true, Option, none, some, ◌==◌,
  arith, Bool-cases,
}
use d_n_i_p.Prelude.Rows.{find?-All}
use d_n_i_p.Tx.{err, transaction-of-err, run-cases}
use d_n_i_p.Entitlement.Policy.{OrderStatus}
use d_n_i_p.Payment.Model.{
  is_pending, Payment, PayOrder, EventType, Store, Texts, Evidence, Response, find_payment,
  find_order, end_payment, end_order,
}
use d_n_i_p.Payment.Events.{
  provider_of, int_eq, same_amount, same_reference, mismatch, add_event, log_action, add_order_paid,
  event_tx, is_incomplete, process_authoritative_payment_event,
}
use d_n_i_p.Payment.Outcome.{
  ended, paid, to_end, to_paid, Outcome, seen, recorded, applied, event_tx-Outcome,
  catch_unique-store,
}
use d_n_i_p.Payment.Repeat.{process-of-ok, process-run}
use d_n_i_p.Payment.Spec.Valid.{IsValid, IsPricedBy}
use d_n_i_p.Payment.Spec.Abstract.{order_status, end-order_status}

int_eq_sound : (a b : ℤ) → int_eq a b ≡ true → a ≡ b
int_eq_sound (pos a) (pos b) h = ground arith
int_eq_sound (negsuc a) (negsuc b) h = ground arith
int_eq_sound (pos a) (negsuc b) h = absurd (ground arith)
int_eq_sound (negsuc a) (pos b) h = absurd (ground arith)

same_amount_sound : (a : ℤ) (b : Option ℤ) → same_amount a b ≡ true → b ≡ some a
same_amount_sound a none h = absurd (ground arith)
same_amount_sound a (some b) h = ap some (sym (int_eq_sound a b h))

same_reference_sound : (t : Texts) (r : Option ℕ) (q : ℕ) → same_reference t r q ≡ true → r ≡ some q
same_reference_sound t none q h = absurd (ground arith)
same_reference_sound t (some r) q h = ground arith

-- What an event that agrees with a payment says.
mismatch-none :
    (t : Texts) (e : Evidence) (p : Payment)
    → mismatch t e p ≡ none
    → (t.lower p.provider ≡ provider_of t e)
      × (p.order_id ≡ e.order_id)
      × (p.provider_reference ≡ some e.provider_reference)
      × (e.amount ≡ some p.amount)
      × (t.upper p.currency ≡ t.upper e.currency)
unfolding mismatch
mismatch-none t e p h = elim (Bool-cases (same_amount p.amount e.amount)) [
  | inr k ↦ absurd (ground arith)
  | inl k ↦ elim (Bool-cases (same_reference t p.provider_reference e.provider_reference)) [
    | inr l ↦ absurd (ground arith)
    | inl l ↦ (
      ground arith,
      ground arith,
      same_reference_sound t p.provider_reference e.provider_reference l,
      same_amount_sound p.amount e.amount k,
      ground arith,
    )
  ]
]

-- The order that an outcome has turned to PAID is that of the payment, which was pending.
Outcome-paid :
    (t : Texts) (e : Evidence) (p : Payment) (o : PayOrder) (s : Store) (r : Response) (s' : Store)
    (i : ℕ)
    → find_order p.order_id s.orders ≡ some o
    → Outcome t e p o s r s'
    → order_status s.orders i ≢ some OrderStatus.paid
    → order_status s'.orders i ≡ some OrderStatus.paid
    → (i ≡ p.order_id) × (is_pending p.status ≡ true) × (e.event_type ≡ EventType.succeeded)
unfolding add_event ended paid log_action end_payment end_order add_order_paid
Outcome-paid t e p o s r s' i ho (seen _ _ eq) no_yet now = absurd (no_yet (rw eq at now))
Outcome-paid t e p o s r s' i ho (recorded _ _ eq) no_yet now = absurd (no_yet (rw eq at now))
Outcome-paid t e p o s r s' i ho (applied k _ (to_end _ _ eq)) no_yet now =
    absurd (no_yet (rw eq at now))
Outcome-paid t e p o s r s' i ho (applied k _ (to_paid l ty _ eq)) no_yet now =
    elim (Bool-cases (i == p.order_id)) [
      | inl b ↦ (ground arith, k, ty)
      | inr b ↦
          let after = end-order_status p.order_id OrderStatus.paid s.orders o i ho l in
          let same : order_status s'.orders i ≡ order_status s.orders i =
            rw eq (after ∙ rw b refl) in
          absurd (no_yet (sym same ∙ now))
    ]

-- In valid tables, an event turns an order to PAID only if it is a success event, of a pending
-- payment of this order, with that payment's provider and reference, over exactly the order's
-- total, and in its currency.
pub process_pays_exactly :
    (t : Texts) (raced : Bool) (e : Evidence) (s : Store) (i : ℕ)
    → IsValid s
    → order_status s.orders i ≢ some OrderStatus.paid
    → order_status (process_authoritative_payment_event t raced e s).1.orders i
      ≡ some OrderStatus.paid
    → (p : Payment) × (o : PayOrder) × (find_payment e.payment_id s.payments ≡ some p)
      × (is_pending p.status ≡ true)
      × (e.event_type ≡ EventType.succeeded)
      × (p.provider_reference ≡ some e.provider_reference)
      × (t.lower p.provider ≡ provider_of t e)
      × (find_order i s.orders ≡ some o)
      × (e.order_id ≡ i)
      × (e.amount ≡ some o.total_amount)
      × (t.upper o.currency ≡ t.upper e.currency)
unfolding process_authoritative_payment_event
process_pays_exactly t raced e s i v no_yet now = elim (Bool-cases (is_incomplete t e)) [
  | inl b ↦ absurd (no_yet (rw (process_authoritative_payment_event, b) at now))
  | inr b ↦ elim (run-cases (event_tx t raced e s)) [
    | inl (x, f) ↦
        let kept = catch_unique-store e.payment_id (err x, s) in
        absurd (
          no_yet (
            rw (process-run t raced e s b, transaction-of-err (event_tx t raced e) s x f, kept) at
              now))
    | inr (r, s', f) ↦
        let (p, o, hp, ho, hm, done) = event_tx-Outcome t raced e s r s' f in
        let now' = rw (process-of-ok t raced e s r s' b f) at now in
        let (same, k, ty) = Outcome-paid t e p o s r s' i ho done no_yet now' in
        let (pr, od, rf, am, cu) = mismatch-none t e p hm in
        let (pa, pc) =
          find?-All (IsPricedBy s.orders) (λ x. x.id == e.payment_id) s.payments v.priced hp o ho in
        (
          p,
          o,
          hp,
          k,
          ty,
          rf,
          pr,
          rw same ho,
          sym (od) ∙ sym same,
          am ∙ ap some pa,
          ap t.upper (sym pc) ∙ cu,
        )
  ]
]
