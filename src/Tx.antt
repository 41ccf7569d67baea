-- ===== src/Tx.antt =====
-- Database transactions. An action reads and changes the state and may throw; `transaction` is
-- Prisma's `$transaction`, which commits what an action that returns has done, and rolls back
-- whatever an action that throws has done.
use d_n_i_p.Prelude.{◌≡◌, refl, ◌⊎◌, inl, inr, Bool, true, false, Option, none, some, arith}

pub data Result {ℓ} (E A : Type ℓ) : Type ℓ where
  ok : A → Result E A
  err : E → Result E A

abbrev pub Tx : Type 0 → Type 0 → Type 0 → Type 0
Tx S E A = S → Result E (A × S)

module _ {S E : Type 0} where
  infixl 5 ◌>>=◌ ◌>>◌
  abbrev pub ◌>>=◌ : {A B : Type 0} → Tx S E A → (A → Tx S E B) → Tx S E B
  ◌>>=◌ m f s = elim (m s) [ ok (a, s') ↦ f a s' | err e ↦ err e ]

  abbrev pub ◌>>◌ : {B : Type 0} → Tx S E (Unit {0}) → Tx S E B → Tx S E B
  m >> k = m >>= λ _. k

  abbrev pub pure : {A : Type 0} → A → Tx S E A
  pure a s = ok (a, s)

  abbrev pub throw : {A : Type 0} → E → Tx S E A
  throw e s = err e

  abbrev pub gets : {A : Type 0} → (S → A) → Tx S E A
  gets f s = ok (f s, s)

  abbrev pub modify : (S → S) → Tx S E (Unit {0})
  modify f s = ok (tt, f s)

  -- `if (!b) throw e`
  abbrev pub check : Bool → E → Tx S E (Unit {0})
  check true e s = ok (tt, s)
  check false e s = err e

  -- The value of a query that must have found a row.
  abbrev pub found : {A : Type 0} → Option A → E → Tx S E A
  found none e s = err e
  found (some a) e s = ok (a, s)

  abbrev commit : {A : Type 0} → S → Result E (A × S) → Result E A × S
  commit s (ok (a, s')) = (ok a, s')
  commit s (err e) = (err e, s)

  unfoldable pub transaction : {A : Type 0} → Tx S E A → S → Result E A × S
  transaction m s = commit s (m s)

  -- A transaction that throws leaves the database as it was.
  pub transaction_rollback :
      {A : Type 0} (m : Tx S E A) (s : S) (e : E)
      → (transaction m s).0 ≡ err e
      → (transaction m s).1 ≡ s
  unfolding transaction
  transaction_rollback m s e h = ground arith

  -- What holds before, and after each return of the action, holds after the transaction.
  pub transaction_keeps :
      {A : Type 0} (P : S → Type 0) (m : Tx S E A) (s : S)
      → P s
      → ((a : A) (s' : S) → m s ≡ ok (a, s') → P s')
      → P (transaction m s).1
  unfolding transaction
  transaction_keeps {A} P m s h k = go (m s) refl
    where
      go : (r : Result E (A × S)) → m s ≡ r → P (commit s r).1
      go (ok (a, s')) e = k a s' e
      go (err e') e = h

  -- What a transaction that returned has committed.
  pub transaction-eq-ok :
      {A : Type 0} (m : Tx S E A) (s : S) (a : A)
      → (transaction m s).0 ≡ ok a
      → (s' : S) × (m s ≡ ok (a, s')) × ((transaction m s).1 ≡ s')
  unfolding transaction
  transaction-eq-ok {A} m s a h = go (m s) h
    where
      go :
          (r : Result E (A × S))
          → (commit s r).0 ≡ ok a
          → (s' : S) × (r ≡ ok (a, s')) × ((commit s r).1 ≡ s')
      go (ok (b, s')) e = (s', cc, refl)
      go (err e') e = absurd (ground arith)

  pub transaction-of-ok :
      {A : Type 0} (m : Tx S E A) (s s' : S) (a : A)
      → m s ≡ ok (a, s')
      → transaction m s ≡ (ok a, s')
  unfolding transaction
  transaction-of-ok m s s' a h = rw (h, transaction)

  pub transaction-of-err :
      {A : Type 0} (m : Tx S E A) (s : S) (e : E) → m s ≡ err e → transaction m s ≡ (err e, s)
  unfolding transaction
  transaction-of-err m s e h = rw (h, transaction)

  pub transaction-eq-err :
      {A : Type 0} (m : Tx S E A) (s : S) (e : E) → (transaction m s).0 ≡ err e → m s ≡ err e
  unfolding transaction
  transaction-eq-err {A} m s e h = go (m s) h
    where
      go : (r : Result E (A × S)) → (commit s r).0 ≡ err e → r ≡ err e
      go (ok (b, s')) e = absurd (ground arith)
      go (err e') e = ground arith

  -- An action that returned has returned in each of its parts.
  pub bind-ok :
      {A B : Type 0} (m : Tx S E A) (f : A → Tx S E B) (s : S) (b : B) (s' : S)
      → (m >>= f) s ≡ ok (b, s')
      → (a : A) × (t : S) × (m s ≡ ok (a, t)) × (f a t ≡ ok (b, s'))
  bind-ok {A} {B} m f s b s' h = go (m s) refl h
    where
      go :
          (r : Result E (A × S))
          → m s ≡ r
          → (elim r [ ok (a, t) ↦ f a t | err e ↦ err e ]) ≡ ok (b, s')
          → (a : A) × (t : S) × (m s ≡ ok (a, t)) × (f a t ≡ ok (b, s'))
      go (ok (a, t)) e k = (a, t, e, k)
      go (err x) e k = absurd (ground arith)

  -- An action throws or returns.
  pub run-cases :
      {A : Type 0} (r : Result E (A × S))
      → ((e : E) × (r ≡ err e)) ⊎ ((a : A) × (s' : S) × (r ≡ ok (a, s')))
  run-cases (err e) = inl (e, refl)
  run-cases (ok (a, s')) = inr (a, s', refl)

pub result-cases :
    {E A : Type 0} (r : Result E A) → ((e : E) × (r ≡ err e)) ⊎ ((a : A) × (r ≡ ok a))
result-cases (err e) = inl (e, refl)
result-cases (ok a) = inr (a, refl)
