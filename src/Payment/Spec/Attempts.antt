-- ===== src/Payment/Spec/Attempts.antt =====
-- The sessions and the reconciliation of apps/api/src/modules/payments/payments.service.ts as
-- moves of the state machine.
use d_n_i_p.Prelude.{
  ℕ, ◌≡◌, refl, sym, subst, inl, inr, Bool, true, Option, none, some, ◌==◌, arith, find?,
  Bool-cases, Option-cases,
}
use d_n_i_p.Prelude.Rows.{find?-sound, find?-update}
use d_n_i_p.Tx.{Result, ok, err, run-cases}
use d_n_i_p.Payment.Model.{
  PaymentStatus, is_pending, is_payable, Payment, PayOrder, Store, Texts, PayError, Response,
  find_payment, find_order,
}
use d_n_i_p.Payment.Events.{load, process_authoritative_payment_event}
use d_n_i_p.Payment.Sessions.{
  Adapter, ProviderStatus, pending_of, new_payment, add_payment, read_attempt, create_attempt,
  open_attempt, unclaimed, with_session, claim_payment,
}
use d_n_i_p.Payment.Reconcile.{
  answered, final_event, status_mismatch, evidence_of, use_status, query, reconcile_payment,
}
use d_n_i_p.Payment.Spec.{begin, stay}
use d_n_i_p.Payment.Spec.Abstract.{payment_status, view, append-payment_status}
use d_n_i_p.Payment.Spec.Valid.{add-IsSingle, add-IsPriced, claim-IsSingle, claim-IsPriced}
use d_n_i_p.Payment.Spec.Refine.{Sim, same-Terms, stay-Sim, event-Sim}

add_payment-Sim :
    (p : Payment) (o : PayOrder) (s : Store)
    → find_payment p.id s.payments ≡ none
    → find? (pending_of p.order_id) s.payments ≡ none
    → find_order p.order_id s.orders ≡ some o
    → is_pending p.status ≡ true
    → p.amount ≡ o.total_amount
    → p.currency ≡ o.currency
    → Sim s (add_payment p s)
unfolding add_payment view
add_payment-Sim p o s h free ho k a c = (
  begin p.id (rw h refl) (λ i. ground (arith, append-payment_status s.payments p i h)) (λ i. refl)
      (λ i. refl),
  λ v. record {
    keyed = v.keyed;
    single = add-IsSingle s.payments p free v.single;
    priced = add-IsPriced s.orders s.payments p o ho a c v.priced;
  },
  same-Terms s (add_payment p s) refl,
)

-- The order may have been read earlier, if it has kept its total and its currency.
pub open-Sim :
    (new_id : ℕ) (a : Adapter) (o o' : PayOrder) (candidate : Option Payment) (s : Store)
    (p : Payment) (s' : Store)
    → find_order o.id s.orders ≡ some o'
    → o'.total_amount ≡ o.total_amount
    → o'.currency ≡ o.currency
    → open_attempt new_id a o candidate s ≡ ok (p, s')
    → Sim s s'
unfolding open_attempt create_attempt new_payment
open-Sim new_id a o o' (some q) s p s' there total currency h =
    stay-Sim s s' (ground arith) (ground arith) (ground arith)
open-Sim new_id a o o' none s p s' there total currency h =
    elim (Option-cases (find? (pending_of o.id) s.payments)) [
      | inr (q, e4) ↦ stay-Sim s s' (ground arith) (ground arith) (ground arith)
      | inl e4 ↦ elim (Option-cases (find_payment new_id s.payments)) [
        | inr (q, e5) ↦ absurd (ground arith)
        | inl e5 ↦
            let made = new_payment new_id a.provider_name o in
            let same : s' ≡ add_payment made s = ground arith in
            rw same (add_payment-Sim made o' s e5 e4 there refl (sym total) (sym currency))
      ]
    ]

-- What was read.
pub read_attempt_inv :
    (get_adapter : ℕ → Option Adapter) (user_id order_id provider : ℕ) (s : Store) (a : Adapter)
    (o : PayOrder) (candidate : Option Payment) (s0 : Store)
    → read_attempt get_adapter user_id order_id provider s ≡ ok ((a, o, candidate), s0)
    → (s0 ≡ s) × (find_order o.id s.orders ≡ some o)
unfolding read_attempt
read_attempt_inv get_adapter user_id order_id provider s a o candidate s0 h =
    elim (Option-cases (find_order order_id s.orders)) [
      | inl e ↦ absurd (ground arith)
      | inr (q, e) ↦ elim (Bool-cases (q.user_id == user_id)) [
        | inr e1 ↦ absurd (ground arith)
        | inl e1 ↦ elim (Bool-cases (is_payable q.status)) [
          | inr e2 ↦ absurd (ground arith)
          | inl e2 ↦ elim (Option-cases (get_adapter provider)) [
            | inl e3 ↦ absurd (ground arith)
            | inr (b, e3) ↦
                let same : q ≡ o = ground arith in
                let here : (q.id == order_id) ≡ true =
                  find?-sound (λ x. x.id == order_id) s.orders e in
                let at_q : order_id ≡ q.id = ground arith in
                (
                  ground arith,
                  subst (λ x. find_order x.id s.orders ≡ some x) same
                      (subst (λ i. find_order i s.orders ≡ some q) at_q e),
                )
          ]
        ]
      ]
    ]

claim-status :
    (i provider reference : ℕ) (s : Store) (j : ℕ)
    → payment_status (claim_payment i provider reference s).payments j ≡ payment_status s.payments j
unfolding claim_payment
claim-status i provider reference s j =
    let seen =
      find?-update (λ x. x.id == j) (unclaimed i) (with_session provider reference) s.payments
        (λ x _. refl) in
    elim (Option-cases (find_payment j s.payments)) [
      | inl e ↦ rw (seen, e) refl
      | inr (x, e) ↦ rw (seen, e) (ground arith)
    ]

pub claim-Sim :
    (i provider reference : ℕ) (s : Store) → Sim s (claim_payment i provider reference s)
unfolding claim_payment view
claim-Sim i provider reference s = (
  stay (claim-status i provider reference s) (λ j. refl) (λ j. refl),
  λ v. record {
    keyed = v.keyed;
    single = claim-IsSingle i provider reference s.payments v.single;
    priced = claim-IsPriced s.orders i provider reference s.payments v.priced;
  },
  same-Terms s (claim_payment i provider reference s) refl,
)

answered-store : (d : Result PayError Response × Store) → (answered d).1 ≡ d.1
unfolding answered
answered-store (ok r, s) = refl
answered-store (err e, s) = refl

use_status-Sim :
    (t : Texts) (name : ℕ → PaymentStatus → ℕ) (raced : Bool) (a : Adapter) (p : Payment)
    (o : PayOrder) (reference : ℕ) (q : ProviderStatus) (s : Store)
    → Sim s (use_status t name raced a p o reference q s).1
unfolding use_status
use_status-Sim t name raced a p o reference q s =
    elim (Option-cases (status_mismatch t q p reference)) [
      | inr (e, h) ↦ rw (use_status, h) (stay-Sim s s refl refl refl)
      | inl h ↦ elim (Option-cases (final_event q.status)) [
        | inl k ↦ rw (use_status, h, k) (stay-Sim s s refl refl refl)
        | inr (ty, k) ↦
            let e = evidence_of t name a p reference q ty in
            rw (use_status, h, k)
              (subst (Sim s)
                (sym (answered-store (process_authoritative_payment_event t raced e s)))
                (event-Sim t raced e s))
      ]
    ]

pub reconcile-Sim :
    (t : Texts) (name : ℕ → PaymentStatus → ℕ) (get_adapter : ℕ → Option Adapter) (raced : Bool)
    (i : ℕ) (s : Store)
    → Sim s (reconcile_payment t name get_adapter raced i s).1
unfolding reconcile_payment
reconcile-Sim t name get_adapter raced i s =
    elim (run-cases (load i (PayError.payment_not_found i) s)) [
      | inl (x, b) ↦ rw (reconcile_payment, b) (stay-Sim s s refl refl refl)
      | inr (q, s1, b) ↦ elim (Bool-cases (is_pending (q.0).status)) [
        | inr k ↦ rw (reconcile_payment, b, k) (stay-Sim s s refl refl refl)
        | inl k ↦ elim (Option-cases (get_adapter (q.0).provider)) [
          | inl e ↦ rw (reconcile_payment, b, k, e) (stay-Sim s s refl refl refl)
          | inr (a, e) ↦ elim (Bool-cases (t.lower (q.0).provider == a.provider_name)) [
            | inr n ↦ rw (reconcile_payment, b, k, e, n) (stay-Sim s s refl refl refl)
            | inl n ↦ elim (Option-cases (query t a (q.0))) [
              | inl m ↦ rw (reconcile_payment, b, k, e, n, m) (stay-Sim s s refl refl refl)
              | inr ((reference, none), m) ↦
                  rw (reconcile_payment, b, k, e, n, m) (stay-Sim s s refl refl refl)
              | inr ((reference, some st), m) ↦
                  rw (reconcile_payment, b, k, e, n, m)
                    (use_status-Sim t name raced a (q.0) (q.1) reference st s)
            ]
          ]
        ]
      ]
    ]
