-- ===== src/Checkout/Once.antt =====
-- A checkout with an idempotency key (apps/api/src/modules/orders/orders.service.ts).
use d_n_i_p.Prelude.{
  ℕ, ◌+◌, ◌≤◌, ◌≡◌, ◌∙◌, refl, inl, inr, Bool, true, false, not, ◌&&◌, Option, none, some, List, [],
  ◌∷◌, ◌++◌, arith, find?, filter_where,
}
use d_n_i_p.Prelude.Rows.{find?-update, find?-append_none}
use d_n_i_p.Tx.{ok, err, transaction, transaction-of-ok, transaction-of-err, run-cases}
use d_n_i_p.Checkout.Model.{
  CheckoutResponse, Key, KeyStatus, is_in_progress, Store, CheckoutError, key_of,
}
use d_n_i_p.Checkout.Orders.{Request, checkout_tx}
use d_n_i_p.Checkout.Keys.{
  day_ms, new_key, Reserved, use_key, reserve, release, settle, proceed, checkout,
}
use d_n_i_p.Checkout.Placed.{checkout_tx-Placed, commit_all}

abbrev reserved : ℕ → ℕ → Request → ℕ → Store → Store
reserved now fingerprint q k s = record s { keys = s.keys ++ new_key now fingerprint q k ∷ [] }

-- A request with a new key leads.
fresh-reserve :
    (now fingerprint : ℕ) (q : Request) (k : ℕ) (s : Store)
    → q.key ≡ some k
    → find? (key_of q.user_id k) s.keys ≡ none
    → reserve now fingerprint false q s ≡ (Reserved.lead, reserved now fingerprint q k s)
unfolding reserve
fresh-reserve now fingerprint q k s hk free = rw (reserve, hk, free) refl

fresh-checkout :
    (now fingerprint : ℕ) (reads : List (Option Key)) (q : Request) (k : ℕ) (s : Store)
    → q.key ≡ some k
    → find? (key_of q.user_id k) s.keys ≡ none
    → checkout now fingerprint false reads q s
      ≡ settle q (transaction (checkout_tx q) (reserved now fingerprint q k s))
unfolding checkout proceed
fresh-checkout now fingerprint reads q k s hk free =
    rw (checkout, fresh-reserve now fingerprint q k s hk free) refl

-- What was not there is all that the release takes away.
filter-none :
    {A : Type 0} (p r : A → Bool) (xs : List A) (x : A)
    → find? p xs ≡ none
    → p x ≡ true
    → r x ≡ true
    → filter_where (λ y. not (p y && r y)) (xs ++ x ∷ []) ≡ xs
filter-none p r [] x h a b = ground arith
filter-none p r (y ∷ ys) x h a b = ground (arith, filter-none p r ys x)

-- A checkout with a new key that fails leaves everything as it was, and the key free.
pub checkout_error :
    (now fingerprint : ℕ) (reads : List (Option Key)) (q : Request) (k : ℕ) (s : Store)
    (e : CheckoutError)
    → q.key ≡ some k
    → find? (key_of q.user_id k) s.keys ≡ none
    → (checkout now fingerprint false reads q s).0 ≡ err e
    → (checkout now fingerprint false reads q s).1 ≡ s
unfolding settle release
checkout_error now fingerprint reads q k s e hk free h =
    let s0 = reserved now fingerprint q k s in
    let run = fresh-checkout now fingerprint reads q k s hk free in
    elim (run-cases (checkout_tx q s0)) [
      | inr (r, s', f) ↦
          let back = transaction-of-ok (checkout_tx q) s0 s' r f in absurd (ground arith)
      | inl (x, f) ↦
          let back = transaction-of-err (checkout_tx q) s0 x f in
          let kept =
            filter-none (key_of q.user_id k) (λ y. is_in_progress y.status) s.keys
              (new_key now fingerprint q k) free (ground arith) refl in
          rw (run, back, release, hk, kept) refl
    ]

find?-append_last :
    {A : Type 0} (p : A → Bool) (xs : List A) (x : A)
    → find? p xs ≡ none
    → p x ≡ true
    → find? p (xs ++ x ∷ []) ≡ some x
find?-append_last p xs x h k = find?-append_none p xs (x ∷ []) h ∙ rw k refl

-- The key after the commit.
committed_key :
    (now fingerprint : ℕ) (q : Request) (k : ℕ) (s : Store) (r : CheckoutResponse)
    → q.key ≡ some k
    → find? (key_of q.user_id k) s.keys ≡ none
    → find? (key_of q.user_id k) (commit_all q r (reserved now fingerprint q k s).keys)
      ≡ some
          (record (new_key now fingerprint q k) { status = KeyStatus.committed; response = some r })
committed_key now fingerprint q k s r hk free =
    let row =
      find?-append_last (key_of q.user_id k) s.keys (new_key now fingerprint q k) free
        (ground arith) in
    let seen =
      find?-update (key_of q.user_id k) (key_of q.user_id k)
        (λ x. record x { status = KeyStatus.committed; response = some r })
        (reserved now fingerprint q k s).keys (λ x _. refl) in
    rw hk (seen ∙ rw row (ground arith))

-- A request for a key that is committed, with the same payload and in time, is answered with the
-- stored response.
answered_again :
    (now fingerprint : ℕ) (raced : Bool) (reads : List (Option Key)) (q : Request) (k : ℕ)
    (s : Store) (row : Key) (r : CheckoutResponse)
    → q.key ≡ some k
    → find? (key_of q.user_id k) s.keys ≡ some row
    → row.request_fingerprint ≡ fingerprint
    → row.status ≡ KeyStatus.committed
    → row.response ≡ some r
    → now ≤ row.expires_at
    → checkout now fingerprint raced reads q s ≡ (ok r, s)
unfolding checkout reserve use_key proceed
answered_again now fingerprint raced reads q k s row r hk here f st re late =
    rw (checkout, reserve, hk, here, answer) refl
  where
    answer : use_key now fingerprint q k row s ≡ (Reserved.answered r, s)
    answer = ground arith

-- A request that repeats a checkout with a new key that has succeeded, with the same user, key and
-- payload and within a day, is answered with the same response, and changes nothing.
pub checkout_again :
    (now fingerprint : ℕ) (reads : List (Option Key)) (q : Request) (k : ℕ) (s : Store)
    (r : CheckoutResponse) (now' : ℕ) (raced : Bool) (reads' : List (Option Key)) (q' : Request)
    → q.key ≡ some k
    → find? (key_of q.user_id k) s.keys ≡ none
    → (checkout now fingerprint false reads q s).0 ≡ ok r
    → q'.user_id ≡ q.user_id
    → q'.key ≡ some k
    → now' ≤ now + day_ms
    → checkout now' fingerprint raced reads' q' (checkout now fingerprint false reads q s).1
      ≡ (ok r, (checkout now fingerprint false reads q s).1)
unfolding settle
checkout_again now fingerprint reads q k s r now' raced reads' q' hk free h user hk' late =
    let s0 = reserved now fingerprint q k s in
    let run = fresh-checkout now fingerprint reads q k s hk free in
    elim (run-cases (checkout_tx q s0)) [
      | inl (x, f) ↦ let back = transaction-of-err (checkout_tx q) s0 x f in absurd (ground arith)
      | inr (r', s', f) ↦
          let back = transaction-of-ok (checkout_tx q) s0 s' r' f in
          let same : r' ≡ r = ground arith in
          let done = checkout_tx-Placed q s0 r' s' f in
          let key' = committed_key now fingerprint q k s r' hk free in
          let keys_are : s'.keys ≡ commit_all q r' s0.keys = rw done.stored refl in
          let here : find? (key_of q'.user_id k) s'.keys
              ≡ some (record (new_key now fingerprint q k) {
                status = KeyStatus.committed;
                response = some r';
              }) =
            rw (user, keys_are) key' in
          rw (run, back)
            (answered_again now' fingerprint raced reads' q' k s' _ r hk' here refl refl
              (rw same refl) late)
    ]
