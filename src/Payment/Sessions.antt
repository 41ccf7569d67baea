-- ===== src/Payment/Sessions.antt =====
-- createPaymentSession and reconcilePayment (apps/api/src/modules/payments/payments.service.ts).
-- The adapters of the providers are parameters; the checks of the redirect URLs come before.
use d_n_i_p.Prelude.{
  ℕ, ℤ, Bool, false, not, ◌&&◌, Option, none, some, [], ◌∷◌, ◌++◌, ◌==◌, find?, update_where,
  count_where, is_some, if◌then◌else◌,
}
use d_n_i_p.Tx.{Result, ok, err, Tx, ◌>>=◌, ◌>>◌, pure, gets, modify, check, found}
use d_n_i_p.Payment.Model.{
  PaymentStatus, is_pending, is_payable, Payment, PayOrder, Store, Texts, PayError, find_payment,
  find_order,
}

pub record Session : Type 0 where
  pub session_id : ℕ
  pub session_url : Option ℕ
  pub provider_reference : ℕ

-- NormalizedPaymentStatus
pub record ProviderStatus : Type 0 where
  pub status : PaymentStatus
  pub provider_reference : ℕ
  pub amount : ℤ
  pub currency : ℕ
  pub external_event_id : Option ℕ

-- A provider's adapter; the methods that are optional are none where it has none, and an answer
-- is none where the provider gives none.
pub record Adapter : Type 0 where
  pub provider_name : ℕ
  pub create_payment_session : PayOrder → Payment → Session
  pub get_payment_session : Option (ℕ → Option Session)
  pub query_payment_status : Option (ℕ → Option ProviderStatus)

pub record SessionResponse : Type 0 where
  pub session : Session
  pub provider : ℕ
  pub payment_id : ℕ
  pub order_id : ℕ
  pub amount : ℤ
  pub currency : ℕ

abbrev pub pending_of : ℕ → Payment → Bool
pending_of i p = p.order_id == i && is_pending p.status

-- An empty text is no reference.
abbrev pub reference_of : Texts → Payment → Option ℕ
reference_of t p = elim p.provider_reference [
  | none ↦ none
  | some r ↦ if t.is_empty r then none else some r
]

unfoldable pub new_payment : ℕ → ℕ → PayOrder → Payment
new_payment i provider o = record {
  id = i;
  order_id = o.id;
  provider = provider;
  provider_reference = none;
  status = PaymentStatus.pending;
  amount = o.total_amount;
  currency = o.currency;
}

unfoldable pub add_payment : Payment → Store → Store
add_payment p s = record s { payments = s.payments ++ p ∷ [] }

-- The first part reads the order with its payments, and takes the first that is pending.
unfoldable pub read_attempt :
    (get_adapter : ℕ → Option Adapter) (user_id order_id provider : ℕ)
    → Tx Store PayError (Adapter × PayOrder × Option Payment)
read_attempt get_adapter user_id order_id provider = do
  row ← gets (λ s. find_order order_id s.orders)
  o ← found row (PayError.order_not_found order_id)
  check (o.user_id == user_id) PayError.forbidden
  check (is_payable o.status) (PayError.order_conflict order_id o.status)
  a ← found (get_adapter provider) PayError.unknown_provider
  candidate ← gets (λ s. find? (pending_of o.id) s.payments)
  pure (a, o, candidate)

-- The second part creates a payment if there was none, for the order as it was read. The index
-- unique_pending_payment_per_order refuses a second pending one, and then the one that is there
-- is taken; an id that a payment has is refused, too.
unfoldable pub create_attempt : (new_id : ℕ) → Adapter → PayOrder → Tx Store PayError Payment
unfolding new_payment add_payment
create_attempt new_id a o = do
  rival ← gets (λ s. find? (pending_of o.id) s.payments)
  elim rival [
    | some p ↦ pure p
    | none ↦ do
      taken ← gets (λ s. is_some (find_payment new_id s.payments))
      check (not taken) PayError.id_taken
      let p = new_payment new_id a.provider_name o
      modify (add_payment p)
      pure p
  ]

unfoldable pub open_attempt :
    (new_id : ℕ) → Adapter → PayOrder → Option Payment → Tx Store PayError Payment
unfolding create_attempt
open_attempt new_id a o (some p) = pure p
open_attempt new_id a o none = create_attempt new_id a o

abbrev pub unclaimed : ℕ → Payment → Bool
unclaimed i p = p.id == i && is_pending p.status && not (is_some p.provider_reference)

abbrev pub with_session : ℕ → ℕ → Payment → Payment
with_session provider reference p = record p {
  provider = provider;
  provider_reference = some reference;
}

abbrev pub session_response : Adapter → Session → PayOrder → Payment → SessionResponse
session_response a n o p = record {
  session = n;
  provider = a.provider_name;
  payment_id = p.id;
  order_id = o.id;
  amount = p.amount;
  currency = p.currency;
}

abbrev pub has_reference : ℕ → Option ℕ → Bool
has_reference r none = false
has_reference r (some q) = q == r

unfoldable pub claim_payment : ℕ → ℕ → ℕ → Store → Store
claim_payment i provider reference s = record s {
  payments = update_where (unclaimed i) (with_session provider reference) s.payments;
}

-- The last part: the payment takes the session, unless it has one or is no longer pending.
unfoldable pub claim_session :
    Texts → Adapter → PayOrder → Payment → Session → Tx Store PayError SessionResponse
unfolding claim_payment
claim_session t a o p n = do
  count ← gets (λ s. count_where (unclaimed p.id) s.payments)
  modify (claim_payment p.id a.provider_name n.provider_reference)
  if count == 0
      then (do
        row ← gets (λ s. find_payment p.id s.payments)
        current ← found row (PayError.payment_not_found p.id)
        check
            (is_pending current.status
              && t.lower current.provider == a.provider_name
              && has_reference n.provider_reference current.provider_reference)
            PayError.session_conflict
        pure (session_response a n o p))
      else pure (session_response a n o p)

-- The session of a payment that has one already.
unfoldable pub existing_session :
    Texts → Adapter → PayOrder → Payment → ℕ → Result PayError SessionResponse
existing_session t a o p reference =
    if not (t.lower p.provider == a.provider_name)
    then err PayError.session_conflict
    else elim a.get_payment_session [
      | none ↦ err PayError.session_unavailable
      | some get ↦ elim (get reference) [
        | none ↦ err PayError.session_unavailable
        | some n ↦
            if is_some n.session_url
            then ok (session_response a n o p)
            else err PayError.session_unavailable
      ]
    ]

-- What follows once there is a payment; `meanwhile` is what other calls do to the store while the
-- provider makes the session. What has been written stays when a later part throws.
unfoldable pub attach_session :
    Texts
    → (meanwhile : Store → Store) → Adapter
    → PayOrder
    → Payment
    → (s : Store) → Result PayError SessionResponse × Store
unfolding existing_session claim_session claim_payment
attach_session t meanwhile a o p s = elim (reference_of t p) [
  | some reference ↦ (existing_session t a o p reference, s)
  | none ↦
      let s2 = meanwhile s in
      let n = a.create_payment_session o p in
      elim (claim_session t a o p n s2) [
        | ok (r, s3) ↦ (ok r, s3)
        | err e ↦ (err e, claim_payment p.id a.provider_name n.provider_reference s2)
      ]
]

-- createPaymentSession, which is no transaction. `between` is what other calls do to the store
-- after the order has been read.
unfoldable pub create_payment_session :
    Texts
    → (get_adapter : ℕ → Option Adapter) (between meanwhile : Store → Store)
      (new_id user_id order_id provider : ℕ) (s : Store)
    → Result PayError SessionResponse × Store
unfolding read_attempt open_attempt attach_session
create_payment_session t get_adapter between meanwhile new_id user_id order_id provider s =
    elim (read_attempt get_adapter user_id order_id provider s) [
      | err e ↦ (err e, s)
      | ok ((a, o, candidate), s0) ↦ elim (open_attempt new_id a o candidate (between s0)) [
        | err e ↦ (err e, between s0)
        | ok (p, s1) ↦ attach_session t meanwhile a o p s1
      ]
    ]
