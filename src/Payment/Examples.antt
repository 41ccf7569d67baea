-- ===== src/Payment/Examples.antt =====
-- A store with one order that is to be paid, and the events on its payment.
use d_n_i_p.Prelude.{none, ℕ, pos, ◌≡◌, ◌+◌, refl, false, true, some, [], ◌∷◌, ◌==◌, arith}
use d_n_i_p.Tx.{ok, err}
use d_n_i_p.Entitlement.Policy.{OrderStatus}
use d_n_i_p.Payment.Model.{
  PaymentStatus, Payment, PayOrder, EventType, Store, Texts, Evidence, PayError, Message, Response,
  find_payment, find_order, is_pending,
}
use d_n_i_p.Payment.Events.{
  is_incomplete, mismatch, answer, provider_of, process_authoritative_payment_event,
}
use d_n_i_p.Payment.Repeat.{process_again}
use d_n_i_p.Payment.Paying.{Fits, process_pays, process_cancelled}
use d_n_i_p.Payment.Exact.{process_pays_exactly}
use d_n_i_p.Payment.Spec.Invariant.{paid_count}
use d_n_i_p.Payment.Spec.Abstract.{payment_status, order_status, rows_for, view}
use d_n_i_p.Payment.Spec.Valid.{IsValid}
use d_n_i_p.Payment.Spec.Placing.{Fresh, add_placed}
use d_n_i_p.Payment.Sessions.{claim_payment}
use d_n_i_p.Payment.Spec.History.{
  Calls, nothing, then, event, claim, checkout, empty_store, Calls-refines, Calls-paid_once,
  Calls-order_final,
}
use d_n_i_p.Payment.Spec.{Moves}

abbrev texts : Texts
texts = record {
  is_empty = λ c. c == 0;
  is_blank = λ c. c == 0;
  trim = λ c. c;
  lower = λ c. c;
  upper = λ c. c;
  test_name = 9;
}

abbrev an_order : PayOrder
an_order = record {
  id = 1;
  order_number = 1001;
  user_id = 7;
  status = OrderStatus.pending_payment;
  total_amount = pos 500;
  currency = 3;
}

abbrev a_payment : Payment
a_payment = record {
  id = 10;
  order_id = 1;
  provider = 5;
  provider_reference = some 77;
  status = PaymentStatus.pending;
  amount = pos 500;
  currency = 3;
}

abbrev a_store : Store
a_store = record {
  orders = an_order ∷ [];
  payments = a_payment ∷ [];
  events = [];
  outbox = [];
  audit_rows = [];
}

abbrev cancelled_store : Store
cancelled_store = record a_store {
  orders = record an_order { status = OrderStatus.cancelled } ∷ [];
}

abbrev a_success : Evidence
a_success = record {
  provider = 5;
  external_event_id = 900;
  payment_id = 10;
  order_id = 1;
  provider_reference = 77;
  amount = some (pos 500);
  currency = 3;
  event_type = EventType.succeeded;
}

a_store-IsValid : IsValid a_store
a_store-IsValid = record {
  keyed = (tt, tt);
  single = λ i. ground arith;
  priced = (λ o h. ground arith, tt);
}

fits : Fits texts a_success a_payment an_order a_store
unfolding is_incomplete mismatch
fits = record {
  complete = refl;
  payment_found = refl;
  order_found = refl;
  agrees = refl;
  fresh = refl;
  pending = refl;
}

Fits-cancelled :
    Fits texts a_success a_payment
      (record an_order { status = OrderStatus.cancelled })
      cancelled_store
unfolding is_incomplete mismatch
Fits-cancelled = record {
  complete = refl;
  payment_found = refl;
  order_found = refl;
  agrees = refl;
  fresh = refl;
  pending = refl;
}

abbrev after_success : Store
after_success = (process_authoritative_payment_event texts false a_success a_store).1

two-Calls :
    Calls a_store (process_authoritative_payment_event texts false a_success after_success).1
two-Calls = then (then nothing (event texts false a_success)) (event texts false a_success)

Calls-refines_example :
    Moves
      (view a_store)
      (view (process_authoritative_payment_event texts false a_success after_success).1)
    × IsValid (process_authoritative_payment_event texts false a_success after_success).1
Calls-refines_example = Calls-refines a_store _ a_store-IsValid two-Calls

-- The payment as the checkout has made it, without a session.
abbrev first_payment : Payment
first_payment = record a_payment { provider = 6; provider_reference = none }

an_order-Fresh : Fresh an_order first_payment empty_store
an_order-Fresh = record {
  new_order = refl;
  new_payment = refl;
  unreferred = tt;
  payable = refl;
  pending = refl;
  of_order = refl;
  of_total = refl;
  of_currency = refl;
}

abbrev claimed_store : Store
claimed_store = claim_payment 10 5 77 (add_placed an_order first_payment empty_store)

from_empty-Calls :
    Calls empty_store (process_authoritative_payment_event texts false a_success claimed_store).1
from_empty-Calls =
    then (then (then nothing (checkout an_order first_payment an_order-Fresh)) (claim 10 5 77))
      (event texts false a_success)

Calls-paid_once_example :
    rows_for (process_authoritative_payment_event texts false a_success claimed_store).1.outbox 1
    ≡ paid_count (
        order_status
          (process_authoritative_payment_event texts false a_success claimed_store).1.orders
          1)
Calls-paid_once_example = Calls-paid_once _ from_empty-Calls 1

process_pays_example :
    ((process_authoritative_payment_event texts false a_success a_store).0
      ≡ ok (answer false PaymentStatus.succeeded OrderStatus.paid Message.processed))
    × (payment_status after_success.payments 10 ≡ some PaymentStatus.succeeded)
    × (order_status after_success.orders 1 ≡ some OrderStatus.paid)
    × (rows_for after_success.outbox 1 ≡ 0 + 1)
process_pays_example = process_pays texts a_success a_payment an_order a_store fits refl refl

process_cancelled_example :
    process_authoritative_payment_event texts false a_success cancelled_store
    ≡ (err (PayError.order_conflict 1 OrderStatus.cancelled), cancelled_store)
process_cancelled_example =
    process_cancelled texts a_success a_payment (record an_order { status = OrderStatus.cancelled })
      cancelled_store Fits-cancelled refl refl

process_again_example :
    (r' : Response) × (process_authoritative_payment_event texts true a_success after_success
      ≡ (ok r', after_success))
    × (r'.duplicate ≡ true)
process_again_example =
    process_again texts false true a_success a_store
      (answer false PaymentStatus.succeeded OrderStatus.paid Message.processed)
      (process_pays_example.0) refl

process_pays_exactly_example :
    (p : Payment) × (o : PayOrder) × (find_payment 10 a_store.payments ≡ some p)
    × (is_pending p.status ≡ true)
    × (EventType.succeeded ≡ EventType.succeeded)
    × (p.provider_reference ≡ some 77)
    × (p.provider ≡ provider_of texts a_success)
    × (find_order 1 a_store.orders ≡ some o)
    × ◌≡◌ {A = ℕ} 1 1
    × (some (pos 500) ≡ some o.total_amount)
    × (o.currency ≡ 3)
process_pays_exactly_example =
    process_pays_exactly texts false a_success a_store 1 a_store-IsValid (λ h. ground arith)
      (process_pays_example.2)

cancelled_store-IsValid : IsValid cancelled_store
cancelled_store-IsValid = record {
  keyed = (tt, tt);
  single = λ i. ground arith;
  priced = (λ o h. ground arith, tt);
}

Calls-order_final_example :
    order_status
      (process_authoritative_payment_event texts false a_success cancelled_store).1.orders
      1
    ≡ some OrderStatus.cancelled
Calls-order_final_example =
    Calls-order_final cancelled_store _ cancelled_store-IsValid
      (then nothing (event texts false a_success)) 1 refl
