-- ===== src/Payment/Spec/Invariant.antt =====
-- What every move of the state machine keeps.
use d_n_i_p.Prelude.{
  ℕ, ◌≡◌, ◌∙◌, refl, inl, inr, Bool, true, false, not, Option, none, some, ◌==◌, arith, Bool-cases,
}
use d_n_i_p.Entitlement.Policy.{OrderStatus}
use d_n_i_p.Payment.Model.{PaymentStatus, is_pending}
use d_n_i_p.Payment.Spec.{
  View, set, Move, stay, finish, pay, withdraw, begin, place, Moves, here, next,
}

abbrev pub paid_count : Option OrderStatus → ℕ
paid_count (some OrderStatus.paid) = 1
paid_count _ = 0

-- A paid order has one ORDER_PAID row, and any other has none.
abbrev pub IsPaidOnce : View → Type 0
IsPaidOnce v = (i : ℕ) → v.paid_rows i ≡ paid_count (v.order i)

pub Move-IsPaidOnce : (v w : View) → Move v w → IsPaidOnce v → IsPaidOnce w
Move-IsPaidOnce v w (stay ep eo er) h i = rw (eo i, er i) (h i)
Move-IsPaidOnce v w (finish p st hp ht ep eo er) h i = rw (eo i, er i) (h i)
Move-IsPaidOnce v w (begin p hp ep eo er) h i = rw (eo i, er i) (h i)
Move-IsPaidOnce v w (pay p o hp ho ep eo er) h i = elim (Bool-cases (i == o)) [
  | inl e ↦ let same : i ≡ o = ground arith in rw (same) (ground (arith, ho, h o, eo o, er o))
  | inr e ↦ ground (arith, h i, eo i, er i)
]
Move-IsPaidOnce v w (withdraw p o hp ho ep eo er) h i = elim (Bool-cases (i == o)) [
  | inl e ↦ let same : i ≡ o = ground arith in rw (same) (ground (arith, ho, h o, eo o, er o))
  | inr e ↦ ground (arith, h i, eo i, er i)
]
Move-IsPaidOnce v w (place p o hp ho ep eo er) h i = elim (Bool-cases (i == o)) [
  | inl e ↦ let same : i ≡ o = ground arith in rw (same) (ground (arith, ho, h o, eo o, er o))
  | inr e ↦ ground (arith, h i, eo i, er i)
]

pub Moves-IsPaidOnce : (v w : View) → Moves v w → IsPaidOnce v → IsPaidOnce w
Moves-IsPaidOnce v w here h = h
Moves-IsPaidOnce v w (next {u} ms m) h = Move-IsPaidOnce u w m (Moves-IsPaidOnce v u ms h)

abbrev pub is_settled : Option PaymentStatus → Bool
is_settled none = false
is_settled (some st) = not (is_pending st)

abbrev pub is_closed : Option OrderStatus → Bool
is_closed (some OrderStatus.paid) = true
is_closed (some OrderStatus.cancelled) = true
is_closed _ = false

-- A payment that has ended keeps its status, and so does an order that is paid or cancelled.
abbrev pub Keeps : View → View → Type 0
Keeps v w =
    ((i : ℕ) → is_settled (v.payment i) ≡ true → w.payment i ≡ v.payment i)
    × ((i : ℕ) → is_closed (v.order i) ≡ true → w.order i ≡ v.order i)

-- What passes a test that the written row did not pass is not written.
set-keeps :
    {A : Type 0} (t : Option A → Bool) (f : ℕ → Option A) (p i : ℕ) (x : A)
    → t (f p) ≡ false
    → t (f i) ≡ true
    → set p x f i ≡ f i
set-keeps t f p i x h k = elim (Bool-cases (i == p)) [
  | inl e ↦ let same : i ≡ p = ground arith in absurd (let k' = rw same at k in ground arith)
  | inr e ↦ rw e refl
]

pub Move-Keeps : (v w : View) → Move v w → Keeps v w
Move-Keeps v w (stay ep eo er) = (λ i h. ep i, λ i h. eo i)
Move-Keeps v w (finish p st hp ht ep eo er) =
    (λ i h. ep i ∙ set-keeps is_settled v.payment p i st (rw hp refl) h, λ i h. eo i)
Move-Keeps v w (begin p hp ep eo er) = (
  λ i h. ep i ∙ set-keeps is_settled v.payment p i PaymentStatus.pending (rw hp refl) h,
  λ i h. eo i,
)
Move-Keeps v w (pay p o hp ho ep eo er) = (
  λ i h. ep i ∙ set-keeps is_settled v.payment p i PaymentStatus.succeeded (rw hp refl) h,
  λ i h. eo i ∙ set-keeps is_closed v.order o i OrderStatus.paid (rw ho refl) h,
)
Move-Keeps v w (withdraw p o hp ho ep eo er) = (
  λ i h. ep i ∙ set-keeps is_settled v.payment p i PaymentStatus.cancelled (rw hp refl) h,
  λ i h. eo i ∙ set-keeps is_closed v.order o i OrderStatus.cancelled (rw ho refl) h,
)
Move-Keeps v w (place p o hp ho ep eo er) = (
  λ i h. ep i ∙ set-keeps is_settled v.payment p i PaymentStatus.pending (rw hp refl) h,
  λ i h. eo i ∙ set-keeps is_closed v.order o i OrderStatus.pending_payment (rw ho refl) h,
)

pub Moves-Keeps : (v w : View) → Moves v w → Keeps v w
Moves-Keeps v w here = (λ i h. refl, λ i h. refl)
Moves-Keeps v w (next {u} ms m) =
    let (kp, ko) = Moves-Keeps v u ms in
    let (lp, lo) = Move-Keeps u w m in
    (λ i h. lp i (rw (kp i h) h) ∙ kp i h, λ i h. lo i (rw (ko i h) h) ∙ ko i h)
