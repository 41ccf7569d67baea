-- ===== src/Payment/Repeat.antt =====
-- An event that is delivered again to processAuthoritativePaymentEvent
-- (apps/api/src/modules/payments/payments.service.ts).
use d_n_i_p.Prelude.{
  ℕ, ◌≡◌, ◌∙◌, refl, ◌⊎◌, inl, inr, Bool, true, false, none, some, List, [], ◌∷◌, ◌++◌, ◌==◌, arith,
  any, update_where, Bool-cases, if◌then◌else◌,
}
use d_n_i_p.Prelude.Rows.{find?-update}
use d_n_i_p.Tx.{ok, err, transaction, transaction-of-ok, transaction-of-err, run-cases}
use d_n_i_p.Entitlement.Policy.{OrderStatus}
use d_n_i_p.Payment.Model.{
  PaymentStatus, Payment, PayOrder, Store, Texts, Evidence, PayError, Message, Response,
  find_payment, find_order, open_payment, open_order, with_status, with_order_status, end_payment,
  end_order,
}
use d_n_i_p.Payment.Events.{
  provider_of, mismatch, same_event, add_event, log_action, add_order_paid, answer, load, reloaded,
  event_tx, is_incomplete, catch_unique, process_authoritative_payment_event,
}
use d_n_i_p.Payment.Outcome.{
  status_of, ended, paid, Applied, to_end, to_paid, seen, recorded, applied, event_tx-Outcome,
}

reloaded-duplicate : (i : ℕ) (s : Store) → (reloaded i s).duplicate ≡ true
unfolding reloaded
reloaded-duplicate i s = elim (run-cases (load i (PayError.payment_not_found i) s)) [
  | inl (x, f) ↦ rw (reloaded, f) refl
  | inr (q, s', f) ↦ rw (reloaded, f) refl
]

catch_unique-duplicate :
    (i : ℕ) (x : PayError) (s : Store) (r : Response)
    → (catch_unique i (err x, s)).0 ≡ ok r
    → r.duplicate ≡ true
unfolding catch_unique
catch_unique-duplicate i x s r h = ground (arith, reloaded-duplicate i s)

pub process-run :
    (t : Texts) (raced : Bool) (e : Evidence) (s : Store)
    → is_incomplete t e ≡ false
    → process_authoritative_payment_event t raced e s
      ≡ catch_unique e.payment_id (transaction (event_tx t raced e) s)
unfolding process_authoritative_payment_event
process-run t raced e s h = rw (process_authoritative_payment_event, h) refl

pub process-of-ok :
    (t : Texts) (raced : Bool) (e : Evidence) (s : Store) (r : Response) (s' : Store)
    → is_incomplete t e ≡ false
    → event_tx t raced e s ≡ ok (r, s')
    → process_authoritative_payment_event t raced e s ≡ (ok r, s')
unfolding catch_unique
process-of-ok t raced e s r s' i h =
    process-run t raced e s i ∙ rw (transaction-of-ok (event_tx t raced e) s s' r h) refl

-- The run of an event that is answered: the transaction has returned, or has met a twin.
pub process-cases :
    (t : Texts) (raced : Bool) (e : Evidence) (s : Store) (r : Response)
    → (process_authoritative_payment_event t raced e s).0 ≡ ok r
    → (is_incomplete t e ≡ false)
      × ((r.duplicate ≡ true)
          ⊎ ((event_tx t raced e s ≡ ok (r, (process_authoritative_payment_event t raced e s).1))))
unfolding process_authoritative_payment_event
process-cases t raced e s r h = elim (Bool-cases (is_incomplete t e)) [
  | inl i ↦ absurd (ground arith)
  | inr i ↦ (
    i,
    elim (run-cases (event_tx t raced e s)) [
      | inl (x, f) ↦ inl (
          let run = process-run t raced e s i in
          let back = transaction-of-err (event_tx t raced e) s x f in
          catch_unique-duplicate e.payment_id x s r (ground arith))
      | inr (r', s', f) ↦ inr (
          let run = process-of-ok t raced e s r' s' i f in
          let same : r' ≡ r = ground arith in rw run (rw same at f))
    ],
  )
]

event_tx-seen :
    (t : Texts) (raced : Bool) (e : Evidence) (s : Store) (p : Payment) (o : PayOrder)
    → find_payment e.payment_id s.payments ≡ some p
    → find_order p.order_id s.orders ≡ some o
    → mismatch t e p ≡ none
    → any (same_event (provider_of t e) e.external_event_id) s.events ≡ true
    → event_tx t raced e s ≡ ok (answer true p.status o.status Message.already_processed, s)
unfolding event_tx load
event_tx-seen t raced e s p o hp ho hm hs = ground arith

any-append_last :
    {A : Type 0} (q : A → Bool) (xs : List A) (x : A) → q x ≡ true → any q (xs ++ x ∷ []) ≡ true
any-append_last q [] x h = ground arith
any-append_last q (y ∷ ys) x h = ground (arith, any-append_last q ys x h)

-- What stays of a payment and of an order when statuses are set.
found-after :
    (i q : ℕ) (st : PaymentStatus) (ps : List Payment) (p : Payment)
    → find_payment i ps ≡ some p
    → (p' : Payment) × (find_payment i (update_where (open_payment q) (with_status st) ps)
        ≡ some p')
      × ((st' : PaymentStatus) × (p' ≡ with_status st' p))
found-after i q st ps p h =
    let after = find?-update (λ x. x.id == i) (open_payment q) (with_status st) ps (λ x _. refl) in
    elim (Bool-cases (open_payment q p)) [
      | inl e ↦ (with_status st p, rw (after, h, e) refl, (st, refl))
      | inr e ↦ (p, rw (after, h, e) refl, (p.status, refl))
    ]

order-after :
    (i q : ℕ) (st : OrderStatus) (os : List PayOrder) (o : PayOrder)
    → find_order i os ≡ some o
    → (o' : PayOrder) × (find_order i (update_where (open_order q) (with_order_status st) os)
        ≡ some o')
order-after i q st os o h =
    let after =
      find?-update (λ x. x.id == i) (open_order q) (with_order_status st) os (λ x _. refl) in
    (if open_order q o then with_order_status st o else o, rw (after, h) refl)

mismatch-with_status :
    (t : Texts) (e : Evidence) (p : Payment) (st : PaymentStatus)
    → mismatch t e (with_status st p) ≡ mismatch t e p
unfolding mismatch
mismatch-with_status t e p st = refl

seen-after :
    (t : Texts) (raced : Bool) (e : Evidence) (p : Payment) (s s' : Store) (q : ℕ)
    (st : PaymentStatus) (o' : PayOrder)
    → find_payment e.payment_id s.payments ≡ some p
    → mismatch t e p ≡ none
    → s'.payments ≡ update_where (open_payment q) (with_status st) s.payments
    → find_order p.order_id s'.orders ≡ some o'
    → any (same_event (provider_of t e) e.external_event_id) s'.events ≡ true
    → (r' : Response) × (event_tx t raced e s' ≡ ok (r', s')) × (r'.duplicate ≡ true)
seen-after t raced e p s s' q st o' hp hm ep fo hs =
    let (p', fp, (st', is_p)) = found-after e.payment_id q st s.payments p hp in
    let fp' : find_payment e.payment_id s'.payments ≡ some p' = rw ep fp in
    let fo' : find_order p'.order_id s'.orders ≡ some o' = rw is_p fo in
    let hm' : mismatch t e p' ≡ none = rw is_p (mismatch-with_status t e p st' ∙ hm) in
    (_, event_tx-seen t raced e s' p' o' fp' fo' hm' hs, refl)

-- The event of a pending payment is stored, and the payment and its order are found again.
Applied-seen :
    (t : Texts) (raced : Bool) (e : Evidence) (p : Payment) (o : PayOrder) (s : Store)
    (r : Response) (s' : Store)
    → find_payment e.payment_id s.payments ≡ some p
    → find_order p.order_id s.orders ≡ some o
    → mismatch t e p ≡ none
    → Applied e p o (add_event (provider_of t e) e.event_type e.external_event_id p s) r s'
    → (r' : Response) × (event_tx t raced e s' ≡ ok (r', s')) × (r'.duplicate ≡ true)
unfolding add_event ended paid log_action end_payment end_order add_order_paid
Applied-seen t raced e p o s r s' hp ho hm (to_end k _ eq) =
    seen-after t raced e p s s' p.id (status_of e.event_type) o hp hm (rw eq refl) (rw eq ho)
      (rw eq (any-append_last _ s.events _ (ground arith)))
Applied-seen t raced e p o s r s' hp ho hm (to_paid k _ _ eq) =
    let (o', fo) = order-after p.order_id p.order_id OrderStatus.paid s.orders o ho in
    seen-after t raced e p s s' p.id PaymentStatus.succeeded o' hp hm (rw eq refl) (rw eq fo)
      (rw eq (any-append_last _ s.events _ (ground arith)))

-- An event that was applied, and not answered as a duplicate, is answered as a duplicate when it
-- is delivered again, and then changes nothing.
pub process_again :
    (t : Texts) (raced raced' : Bool) (e : Evidence) (s : Store) (r : Response)
    → (process_authoritative_payment_event t raced e s).0 ≡ ok r
    → r.duplicate ≡ false
    → (r' : Response) × (process_authoritative_payment_event t raced' e
          (process_authoritative_payment_event t raced e s).1
        ≡ (ok r', (process_authoritative_payment_event t raced e s).1))
      × (r'.duplicate ≡ true)
process_again t raced raced' e s r h fresh =
    let (i, cases) = process-cases t raced e s r h in
    elim cases [
      | inl dup ↦ absurd (ground arith)
      | inr ran ↦
          let s' = (process_authoritative_payment_event t raced e s).1 in
          let (p, o, hp, ho, hm, done) = event_tx-Outcome t raced e s r s' ran in
          elim done [
            | seen _ er _ ↦ absurd (ground arith)
            | recorded _ er _ ↦ absurd (ground arith)
            | applied _ _ a ↦
                let (r', again, dup) = Applied-seen t raced' e p o s r s' hp ho hm a in
                (r', process-of-ok t raced' e s' r' s' i again, dup)
          ]
    ]
