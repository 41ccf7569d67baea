-- ===== src/Prelude/Batches.antt =====
-- Batches: the rows that a worker has picked out with a query and a limit, and updates by id.
use Prim.Native.Nat.{ℕ, zero, suc, ◌≤◌}
use mathlib.Core.Path.{◌≡◌, refl, sym}
use mathlib.Core.Logic.{inl, inr}
use mathlib.Core.Bool.{Bool, true, false, ◌||◌}
use mathlib.Core.List.{List, [], ◌∷◌, map}
use native.Mathlib.Omega.{arith}
use d_n_i_p.Prelude.Tests.{◌==◌, leb, Bool-cases}
use d_n_i_p.Prelude.Tables.{
  count_where, filter_where, update_where, take, length, mem_id, All, Member, Unique, insert_asc,
  order_asc,
}
use d_n_i_p.Prelude.Rows.{Unique-same}

module _ {A : Type 0} where
  mem_id-map :
      (key : A → ℕ) (i : ℕ) (ys : List A)
      → mem_id i (map key ys) ≡ true
      → (y : A) × Member y ys × (key y ≡ i)
  mem_id-map key i [] h = cc
  mem_id-map key i (y ∷ ys) h = elim (Bool-cases (i == key y)) [
    | inl e ↦ (y, inl refl, ground arith)
    | inr e ↦ let (z, m, same) = mem_id-map key i ys (ground arith) in (z, inr m, same)
  ]

  pub take-Member : (n : ℕ) (ys : List A) (y : A) → Member y (take n ys) → Member y ys
  take-Member zero ys y m = absurd m
  take-Member (suc n) [] y m = absurd m
  take-Member (suc n) (x ∷ ys) y (inl e) = inl e
  take-Member (suc n) (x ∷ ys) y (inr m) = inr (take-Member n ys y m)

  pub filter_where-Member :
      (p : A → Bool) (xs : List A) (y : A)
      → Member y (filter_where p xs)
      → Member y xs × (p y ≡ true)
  filter_where-Member p [] y m = absurd m
  filter_where-Member p (x ∷ xs) y m = elim (Bool-cases (p x)) [
    | inl e ↦ pick (rw e at m) e (filter_where-Member p xs y)
    | inr e ↦ let (k, h) = filter_where-Member p xs y (rw e at m) in (inr k, h)
  ]
    where
      pick :
          Member y (x ∷ filter_where p xs)
          → p x ≡ true
          → (Member y (filter_where p xs) → Member y xs × (p y ≡ true))
          → Member y (x ∷ xs) × (p y ≡ true)
      pick (inl same) e rec = (inl same, rw same e)
      pick (inr k) e rec = let (k', h) = rec k in (inr k', h)

  -- A row whose id is that of a row of the batch has passed the query of the batch.
  pub chosen_sound :
      (key : A → ℕ) (p : A → Bool) (xs ys : List A) (x : A)
      → Unique key xs
      → Member x xs
      → ((y : A) → Member y ys → Member y xs × (p y ≡ true))
      → mem_id (key x) (map key ys) ≡ true
      → p x ≡ true
  chosen_sound key p xs ys x u m from h =
      let (y, my, same) = mem_id-map key (key x) ys h in
      let (held, passed) = from y my in rw (Unique-same key xs x y u m held (sym same)) passed

  pub batch_sound :
      (key : A → ℕ) (p : A → Bool) (n : ℕ) (xs : List A) (x : A)
      → Unique key xs
      → Member x xs
      → mem_id (key x) (map key (take n (filter_where p xs))) ≡ true
      → p x ≡ true
  batch_sound key p n xs x u m h =
      chosen_sound key p xs (take n (filter_where p xs)) x u m
        (λ y my. filter_where-Member p xs y (take-Member n (filter_where p xs) y my)) h

  -- An update that only takes rows of the table out of the test never raises the count.
  pub count-update_All :
      (q p : A → Bool) (f : A → A) (xs : List A)
      → All (λ x. p x ≡ true → q (f x) ≡ true → q x ≡ true) xs
      → count_where q (update_where p f xs) ≤ count_where q xs
  count-update_All q p f [] k = omega arith
  count-update_All q p f (x ∷ xs) k = ground (arith, k.0, count-update_All q p f xs k.1)

  pub count-update_same :
      (q p : A → Bool) (f : A → A) (xs : List A)
      → All (λ x. p x ≡ true → q (f x) ≡ q x) xs
      → count_where q (update_where p f xs) ≡ count_where q xs
  count-update_same q p f [] k = refl
  count-update_same q p f (x ∷ xs) k = ground (arith, k.0, count-update_same q p f xs k.1)

  pub take_all : (n : ℕ) (xs : List A) → length xs ≤ n → take n xs ≡ xs
  take_all zero [] h = refl
  take_all zero (x ∷ xs) h = absurd (omega arith)
  take_all (suc n) [] h = refl
  take_all (suc n) (x ∷ xs) h = rw (take_all n xs (omega arith)) refl

  pub length-filter : (p : A → Bool) (xs : List A) → length (filter_where p xs) ≡ count_where p xs
  length-filter p [] = refl
  length-filter p (x ∷ xs) = ground (arith, length-filter p xs)

  pub mem_id-filter :
      (key : A → ℕ) (p : A → Bool) (xs : List A) (x : A)
      → Member x xs
      → p x ≡ true
      → mem_id (key x) (map key (filter_where p xs)) ≡ true
  mem_id-filter key p [] x m h = absurd m
  mem_id-filter key p (y ∷ ys) x (inl e) h = ground arith
  mem_id-filter key p (y ∷ ys) x (inr m) h = ground (arith, mem_id-filter key p ys x m h)

  pub count-zero_after :
      (p q : A → Bool) (f : A → A) (xs : List A)
      → All (λ x. q x ≡ false → p x ≡ false) xs
      → ((x : A) → p (f x) ≡ false)
      → count_where p (update_where q f xs) ≡ 0
  count-zero_after p q f [] h k = refl
  count-zero_after p q f (x ∷ xs) h k = elim (Bool-cases (q x)) [
    | inl e ↦ ground (arith, k x, count-zero_after p q f xs h.1 k)
    | inr e ↦ ground (arith, h.0 e, count-zero_after p q f xs h.1 k)
  ]

  -- Two updates of a row are one, if the second leaves alone what the first has changed.
  pub update-update :
      (p q r : A → Bool) (f : A → A) (xs : List A)
      → ((x : A) → q (f x) ≡ false)
      → ((x : A) → r x ≡ (p x || q x))
      → update_where q f (update_where p f xs) ≡ update_where r f xs
  update-update p q r f [] k h = refl
  update-update p q r f (x ∷ xs) k h = ground (arith, k x, h x, update-update p q r f xs k h)

-- A batch in an order.
module _ {A : Type 0} (created : A → ℕ) where
  insert_asc-Member :
      (e : A) (es : List A) (x : A) → Member x (insert_asc created e es) → Member x (e ∷ es)
  unfolding insert_asc
  insert_asc-Member e [] x m = m
  insert_asc-Member e (y ∷ ys) x m = elim (Bool-cases (leb (created e) (created y))) [
    | inl b ↦ rw b at m
    | inr b ↦ swap (rw b at m) (insert_asc-Member e ys x)
  ]
    where
      swap :
          Member x (y ∷ insert_asc created e ys)
          → (Member x (insert_asc created e ys) → Member x (e ∷ ys))
          → Member x (e ∷ y ∷ ys)
      swap (inl h) rec = inr (inl h)
      swap (inr h) rec = elim (rec h) [ inl k ↦ inl k | inr k ↦ inr (inr k) ]

  pub order_asc-Member : (es : List A) (x : A) → Member x (order_asc created es) → Member x es
  unfolding order_asc
  order_asc-Member [] x m = m
  order_asc-Member (e ∷ es) x m = elim (insert_asc-Member e (order_asc created es) x m) [
    | inl h ↦ inl h
    | inr h ↦ inr (order_asc-Member es x h)
  ]

  -- A row whose id is in the first `n` rows of a query has passed the query.
  pub ordered_batch_sound :
      (key : A → ℕ) (p : A → Bool) (n : ℕ) (xs : List A) (x : A)
      → Unique key xs
      → Member x xs
      → mem_id (key x) (map key (take n (order_asc created (filter_where p xs)))) ≡ true
      → p x ≡ true
  ordered_batch_sound key p n xs x u m h =
      chosen_sound key p xs (take n (order_asc created (filter_where p xs))) x u m
        (λ y my. filter_where-Member p xs y (
          order_asc-Member (filter_where p xs) y
            (take-Member n (order_asc created (filter_where p xs)) y my)))
        h

module _ {A : Type 0} (key : A → ℕ) where
  pub mem_id-Member : (ys : List A) (x : A) → Member x ys → mem_id (key x) (map key ys) ≡ true
  mem_id-Member [] x m = absurd m
  mem_id-Member (y ∷ ys) x (inl e) = ground arith
  mem_id-Member (y ∷ ys) x (inr m) = ground (arith, mem_id-Member ys x m)

  insert_asc-first : (e : A) (es : List A) → Member e (insert_asc key e es)
  unfolding insert_asc
  insert_asc-first e [] = inl refl
  insert_asc-first e (y ∷ ys) = elim (Bool-cases (leb (key e) (key y))) [
    | inl b ↦ rw (insert_asc, b) (inl refl)
    | inr b ↦ rw (insert_asc, b) (inr (insert_asc-first e ys))
  ]

  insert_asc-rest : (e : A) (es : List A) (x : A) → Member x es → Member x (insert_asc key e es)
  unfolding insert_asc
  insert_asc-rest e [] x m = absurd m
  insert_asc-rest e (y ∷ ys) x m = elim (Bool-cases (leb (key e) (key y))) [
    | inl b ↦ rw (insert_asc, b) (inr m)
    | inr b ↦
        rw (insert_asc, b) (elim m [ inl same ↦ inl same | inr k ↦ inr (insert_asc-rest e ys x k) ])
  ]

  pub order_asc-all : (es : List A) (x : A) → Member x es → Member x (order_asc key es)
  unfolding order_asc
  order_asc-all [] x m = absurd m
  order_asc-all (e ∷ es) x (inl same) = rw same (insert_asc-first e (order_asc key es))
  order_asc-all (e ∷ es) x (inr m) = insert_asc-rest e (order_asc key es) x (order_asc-all es x m)

  length-insert_asc : (e : A) (es : List A) → length (insert_asc key e es) ≡ suc (length es)
  unfolding insert_asc
  length-insert_asc e [] = refl
  length-insert_asc e (y ∷ ys) = ground (arith, length-insert_asc e ys)

  pub length-order_asc : (es : List A) → length (order_asc key es) ≡ length es
  unfolding order_asc
  length-order_asc [] = refl
  length-order_asc (e ∷ es) =
      omega (arith, length-insert_asc e (order_asc key es), length-order_asc es)

module _ {A : Type 0} where
  pub Member-filter :
      (p : A → Bool) (xs : List A) (x : A) → Member x xs → p x ≡ true → Member x (filter_where p xs)
  Member-filter p [] x m h = absurd m
  Member-filter p (y ∷ ys) x (inl e) h = let b : p y ≡ true = rw (← e) h in rw b (inl e)
  Member-filter p (y ∷ ys) x (inr m) h = elim (Bool-cases (p y)) [
    | inl b ↦ rw b (inr (Member-filter p ys x m h))
    | inr b ↦ rw b (Member-filter p ys x m h)
  ]

  pub count_le :
      (p q : A → Bool) (xs : List A)
      → ((x : A) → p x ≡ true → q x ≡ true)
      → count_where p xs ≤ count_where q xs
  count_le p q [] k = omega arith
  count_le p q (x ∷ xs) k = ground (arith, k x, count_le p q xs k)

  -- A limit that is no less than the rows of the query leaves none out.
  pub ordered_batch_complete :
      (created key : A → ℕ) (p : A → Bool) (n : ℕ) (xs : List A) (x : A)
      → count_where p xs ≤ n
      → Member x xs
      → p x ≡ true
      → mem_id (key x) (map key (take n (order_asc created (filter_where p xs)))) ≡ true
  ordered_batch_complete created key p n xs x fits m h =
      let ordered = order_asc created (filter_where p xs) in
      let short : length ordered ≤ n =
        omega (arith, length-order_asc created (filter_where p xs), length-filter p xs, fits) in
      rw (take_all n ordered short) (
        mem_id-Member key ordered x
          (order_asc-all created (filter_where p xs) x (Member-filter p xs x m h)))
