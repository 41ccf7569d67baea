-- ===== src/Checkout/Keys.antt =====
-- The idempotency keys of checkout, and the whole of it
-- (apps/api/src/modules/orders/orders.service.ts).
use d_n_i_p.Prelude.{
  ℕ, ◌+◌, Bool, not, ◌&&◌, Option, none, some, List, [], ◌∷◌, ◌++◌, ◌==◌, leb, ltb, find?,
  count_where, filter_where, update_where, if◌then◌else◌,
}
use d_n_i_p.Tx.{Result, ok, err, transaction}
use d_n_i_p.Checkout.Model.{
  CheckoutResponse, Key, KeyStatus, is_committed, is_in_progress, Store, CheckoutError, key_of,
}
use d_n_i_p.Checkout.Orders.{Request, checkout_tx}

-- STALE_IN_PROGRESS_MS
abbrev pub stale_in_progress_ms : ℕ
stale_in_progress_ms = 10000

abbrev pub day_ms : ℕ
day_ms = 86400000

-- pollIdempotencyResponse, over what its reads of the key find until its time is over.
unfoldable pub poll : ℕ → List (Option Key) → Result CheckoutError CheckoutResponse
poll fingerprint [] = err CheckoutError.still_in_progress
poll fingerprint (none ∷ reads) = err CheckoutError.concurrent_failed
poll fingerprint (some k ∷ reads) =
    let rest = poll fingerprint reads in
    if not (k.request_fingerprint == fingerprint)
    then err CheckoutError.key_reused
    else if is_committed k.status
    then elim k.response [ some r ↦ ok r | none ↦ rest ]
    else rest

-- What the reservation of a key comes to.
pub data Reserved : Type 0 where
  lead wait : Reserved
  answered : CheckoutResponse → Reserved
  refused : CheckoutError → Reserved

abbrev pub stale_key : ℕ → ℕ → ℕ → Key → Bool
stale_key now user_id key k =
    key_of user_id key k && is_in_progress k.status && leb (k.started_at + stale_in_progress_ms) now

abbrev pub restart : ℕ → Key → Key
restart now k = record k { started_at = now }

-- A key that is being processed: its lease is taken over if it is stale.
unfoldable pub take_over : ℕ → Request → ℕ → Key → Store → Reserved × Store
take_over now q key k s =
    if ltb (k.started_at + stale_in_progress_ms) now
    then (if count_where (stale_key now q.user_id key) s.keys == 0 then (Reserved.wait, s) else (
      Reserved.lead,
      record s { keys = update_where (stale_key now q.user_id key) (restart now) s.keys },
    ))
    else (Reserved.wait, s)

-- A key that is stored.
unfoldable pub use_key : ℕ → ℕ → Request → ℕ → Key → Store → Reserved × Store
unfolding take_over
use_key now fingerprint q key k s =
    if ltb k.expires_at now
    then (Reserved.refused CheckoutError.key_expired, s)
    else if not (k.request_fingerprint == fingerprint)
    then (Reserved.refused CheckoutError.key_reused, s)
    else if is_committed k.status
    then elim k.response [ some r ↦ (Reserved.answered r, s) | none ↦ (Reserved.lead, s) ]
    else if is_in_progress k.status
    then take_over now q key k s
    else (Reserved.lead, s)

abbrev pub new_key : ℕ → ℕ → Request → ℕ → Key
new_key now fingerprint q key = record {
  user_id = q.user_id;
  key = key;
  request_fingerprint = fingerprint;
  response = none;
  status = KeyStatus.in_progress;
  started_at = now;
  expires_at = now + day_ms;
}

-- `raced` says whether another request creates the key between the look-up and the insert.
unfoldable pub reserve : ℕ → ℕ → Bool → Request → Store → Reserved × Store
unfolding use_key
reserve now fingerprint raced q s = elim q.key [
  | none ↦ (Reserved.lead, s)
  | some key ↦ elim (find? (key_of q.user_id key) s.keys) [
    | some k ↦ use_key now fingerprint q key k s
    | none ↦
        if raced
        then (Reserved.wait, s)
        else (Reserved.lead, record s { keys = s.keys ++ new_key now fingerprint q key ∷ [] })
  ]
]

-- `deleteMany` of the key that is still in progress.
unfoldable pub release : Request → Store → Store
release q s = elim q.key [
  | none ↦ s
  | some key ↦ record s {
    keys = filter_where (λ k. not (key_of q.user_id key k && is_in_progress k.status)) s.keys;
  }
]

-- The `catch` of checkout.
unfoldable pub settle :
    Request
    → Result CheckoutError CheckoutResponse × Store
    → Result CheckoutError CheckoutResponse × Store
unfolding release
settle q (ok r, s) = (ok r, s)
settle q (err e, s) = (err e, release q s)

-- What follows the reservation; `reads` is what a request that waits reads of the key.
unfoldable pub proceed :
    (fingerprint : ℕ) (reads : List (Option Key))
    → Request
    → Reserved × Store
    → Result CheckoutError CheckoutResponse × Store
unfolding settle poll checkout_tx
proceed fingerprint reads q (Reserved.lead, s) = settle q (transaction (checkout_tx q) s)
proceed fingerprint reads q (Reserved.wait, s) = (poll fingerprint reads, s)
proceed fingerprint reads q (Reserved.answered r, s) = (ok r, s)
proceed fingerprint reads q (Reserved.refused e, s) = (err e, s)

unfoldable pub checkout :
    (now fingerprint : ℕ) (raced : Bool) (reads : List (Option Key))
    → Request
    → Store
    → Result CheckoutError CheckoutResponse × Store
unfolding reserve proceed
checkout now fingerprint raced reads q s =
    proceed fingerprint reads q (reserve now fingerprint raced q s)
