-- ===== src/Payment/Spec/History.antt =====
-- Any sequence of the calls of apps/api/src/modules/payments/payments.service.ts.
use d_n_i_p.Prelude.{
  refl, [], ℕ, ◌≡◌, ◌∙◌, some, sym, subst, inl, inr, Bool, true, Option, ◌==◌, arith, Bool-cases,
  Option-cases, count_where,
}
use d_n_i_p.Tx.{ok, run-cases}
use d_n_i_p.Payment.Model.{
  PaymentStatus, Payment, PayOrder, Store, Texts, Evidence, find_payment, find_order,
}
use d_n_i_p.Payment.Events.{process_authoritative_payment_event}
use d_n_i_p.Payment.Callback.{Callback, process_test_callback}
use d_n_i_p.Payment.Sessions.{
  Adapter, Session, SessionResponse, read_attempt, open_attempt, claim_payment, claim_session,
  unclaimed, reference_of, attach_session, create_payment_session,
}
use d_n_i_p.Payment.Reconcile.{reconcile_payment}
use d_n_i_p.Payment.Spec.{Moves, here, next}
use d_n_i_p.Payment.Spec.Invariant.{
  paid_count, IsPaidOnce, Moves-IsPaidOnce, is_settled, is_closed, Moves-Keeps,
}
use d_n_i_p.Payment.Spec.Abstract.{view, payment_status, order_status, rows_for}
use d_n_i_p.Payment.Spec.Valid.{IsValid}
use d_n_i_p.Payment.Spec.Refine.{Sim, Terms, same-Terms, event-Sim}
use d_n_i_p.Payment.Spec.Placing.{Fresh, add_placed, placed-Sim}
use d_n_i_p.Payment.Spec.Callbacks.{callback-Sim}
use d_n_i_p.Payment.Spec.Attempts.{open-Sim, read_attempt_inv, claim-Sim, reconcile-Sim}

-- A call, one of the two parts of createPaymentSession that write, or a checkout. The order of
-- a new payment was read before; it still has the total and the currency that were read
-- (Calls-Terms).
pub data Call (s : Store) : Store → Type 0 where
  event :
      (t : Texts) (raced : Bool) (e : Evidence)
      → Call s (process_authoritative_payment_event t raced e s).1
  callback :
      (t : Texts) (raced : Bool) (c : Callback) → Call s (process_test_callback t raced c s).1
  reconcile :
      (t : Texts) (name : ℕ → PaymentStatus → ℕ) (get_adapter : ℕ → Option Adapter) (raced : Bool)
      (i : ℕ)
      → Call s (reconcile_payment t name get_adapter raced i s).1
  begin :
      (new_id : ℕ) (a : Adapter) (o o' : PayOrder) (candidate : Option Payment) (p : Payment)
      {s' : Store}
      → find_order o.id s.orders ≡ some o'
      → o'.total_amount ≡ o.total_amount
      → o'.currency ≡ o.currency
      → open_attempt new_id a o candidate s ≡ ok (p, s')
      → Call s s'
  claim : (i provider reference : ℕ) → Call s (claim_payment i provider reference s)
  checkout : (o : PayOrder) (p : Payment) → Fresh o p s → Call s (add_placed o p s)

pub data Calls (s : Store) : Store → Type 0 where
  nothing : Calls s s
  then : {u s' : Store} → Calls s u → Call u s' → Calls s s'

Call-Sim : (s : Store) {s' : Store} → IsValid s → Call s s' → Sim s s'
Call-Sim s u (event t raced e) = event-Sim t raced e s
Call-Sim s u (callback t raced c) = callback-Sim t raced c s u
Call-Sim s u (reconcile t name get_adapter raced i) = reconcile-Sim t name get_adapter raced i s
Call-Sim s u (begin new_id a o o' candidate p {s'} there total currency h) =
    open-Sim new_id a o o' candidate s p s' there total currency h
Call-Sim s u (checkout o p f) = placed-Sim o p s f
Call-Sim s u (claim i provider reference) = claim-Sim i provider reference s

-- Every sequence of checkouts and payment calls, from valid tables, is a sequence of moves of the state machine on the
-- statuses and the ORDER_PAID rows, and leaves the tables valid: no two orders with one id, at
-- most one pending payment for an order, and each payment of its order's total and currency.
pub Calls-refines : (s s' : Store) → IsValid s → Calls s s' → Moves (view s) (view s') × IsValid s'
Calls-refines s s' u nothing = (here, u)
Calls-refines s s' u (then {u = v} cs c) =
    let (ms, k) = Calls-refines s v u cs in let (m, keep, _) = Call-Sim v k c in (next ms m, keep k)

-- Whatever the calls, an order stays, with its total and its currency.
pub Calls-Terms : (s s' : Store) → IsValid s → Calls s s' → Terms s s'
Calls-Terms s s' u nothing = same-Terms s s refl
Calls-Terms s s' u (then {u = v} cs c) = λ i o h.
    let (q, there, total, currency) = Calls-Terms s v u cs i o h in
    let (_, _, terms) = Call-Sim v ((Calls-refines s v u cs).1) c in
    let (q', there', total', currency') = terms i q there in
    (q', there', total' ∙ total, currency' ∙ currency)

abbrev pub empty_store : Store
empty_store = record { orders = []; payments = []; events = []; outbox = []; audit_rows = [] }

empty-IsValid : IsValid empty_store
empty-IsValid = record { keyed = tt; single = λ i. omega arith; priced = tt }

empty-IsPaidOnce : IsPaidOnce (view empty_store)
unfolding view
empty-IsPaidOnce i = refl

-- After every sequence of checkouts and payment calls that starts from empty tables, an order has
-- one ORDER_PAID row if it is PAID, and else none.
pub Calls-paid_once :
    (s : Store)
    → Calls empty_store s
    → (i : ℕ) → rows_for s.outbox i ≡ paid_count (order_status s.orders i)
unfolding view
Calls-paid_once s cs =
    Moves-IsPaidOnce (view empty_store) (view s) ((Calls-refines empty_store s empty-IsValid cs).0)
      empty-IsPaidOnce

-- No sequence of calls changes the status of a payment that has ended.
pub Calls-payment_final :
    (s s' : Store)
    → IsValid s
    → Calls s s'
    → (i : ℕ) → is_settled (payment_status s.payments i) ≡ true
    → payment_status s'.payments i ≡ payment_status s.payments i
unfolding view
Calls-payment_final s s' u cs i h =
    (Moves-Keeps (view s) (view s') ((Calls-refines s s' u cs).0)).0 i h

-- No sequence of calls changes the status of an order that is PAID or CANCELLED.
pub Calls-order_final :
    (s s' : Store)
    → IsValid s
    → Calls s s'
    → (i : ℕ) → is_closed (order_status s.orders i) ≡ true
    → order_status s'.orders i ≡ order_status s.orders i
unfolding view
Calls-order_final s s' u cs i h =
    (Moves-Keeps (view s) (view s') ((Calls-refines s s' u cs).0)).1 i h

pub Calls-append : (s u : Store) {w : Store} → Calls s u → Calls u w → Calls s w
Calls-append s u cs nothing = cs
Calls-append s u cs (then ds d) = then (Calls-append s u cs ds) d

claim_session-store :
    (t : Texts) (a : Adapter) (o : PayOrder) (p : Payment) (n : Session) (s : Store)
    (r : SessionResponse) (s' : Store)
    → claim_session t a o p n s ≡ ok (r, s')
    → s' ≡ claim_payment p.id a.provider_name n.provider_reference s
unfolding claim_session
claim_session-store t a o p n s r s' h =
    let s1 = claim_payment p.id a.provider_name n.provider_reference s in
    elim (Bool-cases (count_where (unclaimed p.id) s.payments == 0)) [
      | inr z ↦ ground arith
      | inl z ↦ elim (Option-cases (find_payment p.id s1.payments)) [
        | inl e ↦ absurd (ground arith)
        | inr (q, e) ↦ ground arith
      ]
    ]

module _ (t : Texts) (get_adapter : ℕ → Option Adapter) (between meanwhile : Store → Store)
    (new_id user_id order_id provider : ℕ) (s : Store) (v : IsValid s)
    (before : (s1 : Store) → Calls s1 (between s1))
    (during : (s1 : Store) → Calls s1 (meanwhile s1)) where
  -- What follows once the attempt is open.
  attach_session-Calls :
      (a : Adapter) (o : PayOrder) (p : Payment) (s1 : Store)
      → Calls s s1
      → Calls s (attach_session t meanwhile a o p s1).1
  unfolding attach_session
  attach_session-Calls a o p s1 begun = elim (Option-cases (reference_of t p)) [
    | inr (r, e) ↦ rw (attach_session, e) begun
    | inl e ↦
        let n = a.create_payment_session o p in
        let s2 = meanwhile s1 in
        let ended : Calls s (claim_payment p.id a.provider_name n.provider_reference s2) =
          then (Calls-append s s1 begun (during s1))
            (claim p.id a.provider_name n.provider_reference) in
        elim (run-cases (claim_session t a o p n s2)) [
          | inl (x, f) ↦ rw (attach_session, e, f) ended
          | inr (r, s3, f) ↦
              rw (attach_session, e, f)
                (subst (Calls s) (sym (claim_session-store t a o p n s2 r s3 f)) ended)
        ]
  ]

  -- createPaymentSession is such a sequence, if what happens after it has read the order and
  -- while the provider makes the session is.
  pub create_payment_session-Calls :
      Calls s
        (create_payment_session t get_adapter between meanwhile new_id user_id order_id provider
          s).1
  unfolding create_payment_session
  create_payment_session-Calls =
      elim (run-cases (read_attempt get_adapter user_id order_id provider s)) [
        | inl (e, h) ↦ rw (create_payment_session, h) nothing
        | inr ((a, o, candidate), s0, h) ↦
            let (same, there) =
              read_attempt_inv get_adapter user_id order_id provider s a o candidate s0 h in
            let came : Calls s (between s0) = subst (λ x. Calls x (between s0)) same (before s0) in
            let (o', there', total, currency) = Calls-Terms s (between s0) v came o.id o there in
            elim (run-cases (open_attempt new_id a o candidate (between s0))) [
              | inl (e, k) ↦ rw (create_payment_session, h, k) came
              | inr (p, s1, k) ↦
                  rw (create_payment_session, h, k)
                    (attach_session-Calls a o p s1
                      (then came (begin new_id a o o' candidate p there' total currency k)))
            ]
      ]
