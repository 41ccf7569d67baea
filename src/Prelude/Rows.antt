-- ===== src/Prelude/Rows.antt =====
-- Laws of the table queries: what an update of the row that a query found does to the counts.
use Prim.Native.Nat.{ℕ, ◌+◌, ◌≤◌}
use mathlib.Core.Option
use mathlib.Core.Path.{◌≡◌, refl}
use mathlib.Core.Logic.{◌≢◌, inl, inr}
use mathlib.Core.Bool.{Bool, true, false}
use mathlib.Core.Option.{some, none}
use mathlib.Core.List.{List, [], ◌∷◌, ◌++◌}
use native.Mathlib.Omega.{arith}
use d_n_i_p.Prelude.Tests.{if◌then◌else◌, ◌==◌, Bool-cases}
use d_n_i_p.Prelude.Tables.{find?, count_where, update_where, All, Member, Unique}

module _ {A : Type 0} where
  pub find?-sound : (p : A → Bool) (xs : List A) {r : A} → find? p xs ≡ some r → p r ≡ true
  find?-sound p [] h = cc
  find?-sound p (x ∷ xs) {r} h = elim (Bool-cases (p x)) [
    | inl e ↦ ground arith
    | inr e ↦ find?-sound p xs {r = r} (ground arith)
  ]

  pub find?-Member : (p : A → Bool) (xs : List A) {r : A} → find? p xs ≡ some r → Member r xs
  find?-Member p [] h = cc
  find?-Member p (x ∷ xs) h = elim (Bool-cases (p x)) [
    | inl e ↦ inl (ground arith)
    | inr e ↦ inr (find?-Member p xs (ground arith))
  ]

  pub All-Member {κ} : (P : A → Type κ) (xs : List A) (x : A) → All P xs → Member x xs → P x
  All-Member P [] x h m = absurd m
  All-Member P (y ∷ ys) x h (inl e) = rw e h.0
  All-Member P (y ∷ ys) x h (inr m) = All-Member P ys x h.1 m

  pub find?-All {κ} :
      (P : A → Type κ) (p : A → Bool) (xs : List A) {r : A} → All P xs → find? p xs ≡ some r → P r
  find?-All P p xs {r} h e = All-Member P xs r h (find?-Member p xs e)

  pub All-map_pred {κ μ} :
      (P : A → Type κ) (Q : A → Type μ) (xs : List A) → ((x : A) → P x → Q x) → All P xs → All Q xs
  All-map_pred P Q [] f h = tt
  All-map_pred P Q (x ∷ xs) f h = (f x h.0, All-map_pred P Q xs f h.1)

  pub All-of_Member {κ} : (P : A → Type κ) (xs : List A) → ((x : A) → Member x xs → P x) → All P xs
  All-of_Member P [] f = tt
  All-of_Member P (x ∷ xs) f = (f x (inl refl), All-of_Member P xs (λ y m. f y (inr m)))

  pub All-append {κ} :
      (P : A → Type κ) (xs : List A) (y : A) → All P xs → P y → All P (xs ++ y ∷ [])
  All-append P [] y h k = (k, tt)
  All-append P (x ∷ xs) y h k = (h.0, All-append P xs y h.1 k)

  pub find?-none-Member :
      (p : A → Bool) (xs : List A) (r : A) → find? p xs ≡ none → Member r xs → p r ≡ false
  find?-none-Member p [] r h m = absurd m
  find?-none-Member p (x ∷ xs) r h (inl e) = ground arith
  find?-none-Member p (x ∷ xs) r h (inr m) = find?-none-Member p xs r (ground arith) m

  pub count-find?-none : (p : A → Bool) (xs : List A) → find? p xs ≡ none → count_where p xs ≡ 0
  count-find?-none p [] h = refl
  count-find?-none p (x ∷ xs) h = ground (arith, count-find?-none p xs)

  pub count-All-false :
      (q : A → Bool) (xs : List A) → All (λ x. q x ≡ false) xs → count_where q xs ≡ 0
  count-All-false q [] h = refl
  count-All-false q (x ∷ xs) h = ground (arith, h.0, count-All-false q xs h.1)

  pub count-append :
      (p : A → Bool) (xs ys : List A)
      → count_where p (xs ++ ys) ≡ count_where p xs + count_where p ys
  count-append p [] ys = omega arith
  count-append p (x ∷ xs) ys = omega (arith, count-append p xs ys)

  -- An update that leaves the test alone leaves the count alone.
  pub count-update_keep :
      (q p : A → Bool) (f : A → A) (xs : List A)
      → ((x : A) → p x ≡ true → q (f x) ≡ q x)
      → count_where q (update_where p f xs) ≡ count_where q xs
  count-update_keep q p f [] k = refl
  count-update_keep q p f (x ∷ xs) k = ground (arith, k x, count-update_keep q p f xs k)

  -- An update that only takes rows out of the test never raises the count.
  pub count-update_le :
      (q p : A → Bool) (f : A → A) (xs : List A)
      → ((x : A) → p x ≡ true → q (f x) ≡ true → q x ≡ true)
      → count_where q (update_where p f xs) ≤ count_where q xs
  count-update_le q p f [] k = omega arith
  count-update_le q p f (x ∷ xs) k = ground (arith, k x, count-update_le q p f xs k)

  pub All-update {κ} :
      (P : A → Type κ) (p : A → Bool) (f : A → A) (xs : List A)
      → ((x : A) → p x ≡ true → P x → P (f x))
      → All P xs
      → All P (update_where p f xs)
  All-update P p f [] k h = tt
  All-update P p f (x ∷ xs) k h = elim (Bool-cases (p x)) [
    | inl e ↦ rw e (k x e h.0, All-update P p f xs k h.1)
    | inr e ↦ rw e (h.0, All-update P p f xs k h.1)
  ]

  pub All-each {κ μ} :
      (P : A → Type κ) (Q : A → Type μ) (p : A → Bool) (f : A → A) (xs : List A)
      → All P xs
      → ((x : A) → Member x xs → P x → Q (if p x then f x else x))
      → All Q (update_where p f xs)
  All-each P Q p f [] h k = tt
  All-each P Q p f (x ∷ xs) h k = (k x (inl refl) h.0, All-each P Q p f xs h.1 (λ y m. k y (inr m)))

  -- The same, where the rows are known to be in the table.
  pub All-updated {κ} :
      (P : A → Type κ) (p : A → Bool) (f : A → A) (xs : List A)
      → All P xs
      → ((x : A) → Member x xs → p x ≡ true → P x → P (f x))
      → All P (update_where p f xs)
  All-updated P p f [] h k = tt
  All-updated P p f (x ∷ xs) h k = elim (Bool-cases (p x)) [
    | inl e ↦ rw e (k x (inl refl) e h.0, All-updated P p f xs h.1 (λ y m. k y (inr m)))
    | inr e ↦ rw e (h.0, All-updated P p f xs h.1 (λ y m. k y (inr m)))
  ]

  -- An update that leaves the test alone is seen through a query by that test.
  pub find?-update :
      (p q : A → Bool) (f : A → A) (xs : List A)
      → ((x : A) → q x ≡ true → p (f x) ≡ p x)
      → find? p (update_where q f xs) ≡ Option.map (λ x. if q x then f x else x) (find? p xs)
  find?-update p q f [] k = refl
  find?-update p q f (x ∷ xs) k = ground (arith, k x, find?-update p q f xs k)

  -- A row that an update brings into a query is an updated one.
  pub find?-updated :
      (p q : A → Bool) (f : A → A) (xs : List A) {r : A}
      → find? p xs ≡ none
      → find? p (update_where q f xs) ≡ some r
      → (y : A) × (r ≡ f y)
  find?-updated p q f [] h k = cc
  find?-updated p q f (x ∷ xs) {r} h k = elim (Bool-cases (q x)) [
    | inr e ↦ find?-updated p q f xs {r = r} (ground arith) (ground arith)
    | inl e ↦ elim (Bool-cases (p (f x))) [
      | inl e2 ↦ (x, ground arith)
      | inr e2 ↦ find?-updated p q f xs {r = r} (ground arith) (ground arith)
    ]
  ]

  pub find?-update_none :
      (p : A → Bool) (f : A → A) (xs : List A)
      → ((x : A) → p (f x) ≡ false)
      → find? p (update_where p f xs) ≡ none
  find?-update_none p f [] k = refl
  find?-update_none p f (x ∷ xs) k = ground (arith, k x, find?-update_none p f xs k)

  pub update_where-none :
      (p : A → Bool) (f : A → A) (xs : List A) → count_where p xs ≡ 0 → update_where p f xs ≡ xs
  update_where-none p f [] h = refl
  update_where-none p f (x ∷ xs) h = ground (arith, update_where-none p f xs)

  pub find?-none-count : (p : A → Bool) (xs : List A) → count_where p xs ≡ 0 → find? p xs ≡ none
  find?-none-count p [] h = refl
  find?-none-count p (x ∷ xs) h = ground (arith, find?-none-count p xs)

  pub find?-append_some :
      (p : A → Bool) (xs ys : List A) {r : A} → find? p xs ≡ some r → find? p (xs ++ ys) ≡ some r
  find?-append_some p [] ys h = cc
  find?-append_some p (x ∷ xs) ys {r} h = elim (Bool-cases (p x)) [
    | inl e ↦ ground arith
    | inr e ↦ rw e (find?-append_some p xs ys {r = r} (ground arith))
  ]

  pub find?-append_none :
      (p : A → Bool) (xs ys : List A) → find? p xs ≡ none → find? p (xs ++ ys) ≡ find? p ys
  find?-append_none p [] ys h = refl
  find?-append_none p (x ∷ xs) ys h = ground (arith, find?-append_none p xs ys)

module _ {A : Type 0} (key : A → ℕ) where
  pub update-absent :
      (i : ℕ) (f : A → A) (xs : List A)
      → All (λ y. i ≢ key y) xs
      → update_where (λ x. key x == i) f xs ≡ xs
  update-absent i f [] h = refl
  update-absent i f (x ∷ xs) h = ground (arith, h.0, update-absent i f xs h.1)

  pub Unique-apart :
      (p : A → Bool) (x : A) (xs : List A) {r : A}
      → All (λ y. key x ≢ key y) xs
      → find? p xs ≡ some r
      → key x ≢ key r
  Unique-apart p x xs h e = find?-All (λ y. key x ≢ key y) p xs h e

  -- The update of a found row, by its key, moves each count by what the row itself contributes.
  pub count-update_one :
      (q p : A → Bool) (f : A → A) (xs : List A) (r : A)
      → Unique key xs
      → find? p xs ≡ some r
      → count_where q (update_where (λ x. key x == key r) f xs) + (if q r then 1 else 0)
        ≡ count_where q xs + (if q (f r) then 1 else 0)
  count-update_one q p f [] r u h = cc
  count-update_one q p f (x ∷ xs) r u h = elim (Bool-cases (p x)) [
    | inl e ↦ ground (arith, update-absent (key x) f xs u.0, update-absent (key r) f xs)
    | inr e ↦
        let tail : find? p xs ≡ some r = ground arith in
        ground (arith, Unique-apart p x xs u.0 tail, count-update_one q p f xs r u.1 tail)
  ]

  -- So the count does not rise if the row was in the test already, or does not come into it.
  pub count-update_one_le :
      (q p : A → Bool) (f : A → A) (xs : List A) (r : A)
      → Unique key xs
      → find? p xs ≡ some r
      → (q (f r) ≡ true → q r ≡ true)
      → count_where q (update_where (λ x. key x == key r) f xs) ≤ count_where q xs
  count-update_one_le q p f xs r u h k = elim (Bool-cases (q (f r))) [
    | inl e ↦ ground (arith, k e, count-update_one q p f xs r u h)
    | inr e ↦ ground (arith, count-update_one q p f xs r u h)
  ]

  -- The key of a row is not changed by an update, so keys stay unique.
  pub All-ne-update :
      (i : ℕ) (p : A → Bool) (f : A → A) (xs : List A)
      → ((x : A) → key (f x) ≡ key x)
      → All (λ y. i ≢ key y) xs
      → All (λ y. i ≢ key y) (update_where p f xs)
  All-ne-update i p f xs k h = All-update (λ y. i ≢ key y) p f xs (λ x _ ne e. ne (rw (k x) at e)) h

  pub Unique-update :
      (p : A → Bool) (f : A → A) (xs : List A)
      → ((x : A) → key (f x) ≡ key x)
      → Unique key xs
      → Unique key (update_where p f xs)
  Unique-update p f [] k u = tt
  Unique-update p f (x ∷ xs) k u = elim (Bool-cases (p x)) [
    | inl e ↦ rw (e, k x) (All-ne-update (key x) p f xs k u.0, Unique-update p f xs k u.1)
    | inr e ↦ rw e (All-ne-update (key x) p f xs k u.0, Unique-update p f xs k u.1)
  ]

  pub Unique-append :
      (xs : List A) (y : A)
      → Unique key xs
      → All (λ x. key x ≢ key y) xs
      → Unique key (xs ++ y ∷ [])
  Unique-append [] y u h = (tt, tt)
  Unique-append (x ∷ xs) y u h =
      (All-append (λ z. key x ≢ key z) xs y u.0 h.0, Unique-append xs y u.1 h.1)

  pub Unique-same :
      (xs : List A) (a b : A) → Unique key xs → Member a xs → Member b xs → key a ≡ key b → a ≡ b
  Unique-same [] a b u m n e = absurd m
  Unique-same (x ∷ xs) a b u (inl m) (inl n) e = cc
  Unique-same (x ∷ xs) a b u (inl m) (inr n) e =
      absurd (All-Member (λ y. key x ≢ key y) xs b u.0 n (rw (← m) e))
  Unique-same (x ∷ xs) a b u (inr m) (inl n) e =
      absurd (All-Member (λ y. key x ≢ key y) xs a u.0 m (rw (e, n)))
  Unique-same (x ∷ xs) a b u (inr m) (inr n) e = Unique-same xs a b u.1 m n e

module _ {A : Type 0} where
  pub count-Member :
      (q : A → Bool) (xs : List A) (x : A) → Member x xs → q x ≡ true → 1 ≤ count_where q xs
  count-Member q [] x m h = absurd m
  count-Member q (y ∷ ys) x (inl e) h = ground arith
  count-Member q (y ∷ ys) x (inr m) h = ground (arith, count-Member q ys x m h)

-- A test that only the row of a key can pass counts nothing, if that row fails it.
pub count-of_key_zero :
    {A : Type 0} (key : A → ℕ) (q : A → Bool) (i : ℕ) (xs : List A) (r : A)
    → Unique key xs
    → find? (λ x. key x == i) xs ≡ some r
    → q r ≡ false
    → ((x : A) → q x ≡ true → (key x == i) ≡ true)
    → count_where q xs ≡ 0
count-of_key_zero key q i xs r u h fails k =
    let at_r : (key r == i) ≡ true = find?-sound (λ x. key x == i) xs h in
    count-All-false q xs (
      All-of_Member (λ x. q x ≡ false) xs
        (λ x m. elim (Bool-cases (q x)) [
          | inr e ↦ e
          | inl e ↦
              let at_x = k x e in
              let same : x ≡ r =
                Unique-same key xs x r u m (find?-Member (λ x. key x == i) xs h) (ground arith) in
              absurd (ground arith)
        ]))
