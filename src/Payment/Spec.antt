-- ===== src/Payment/Spec.antt =====
-- What the payments of apps/api/src/modules/payments/payments.service.ts promise, as a state
-- machine: the statuses of payments and of orders, and how many ORDER_PAID rows an order has.
pub mod Invariant
pub mod Abstract
pub mod Valid
pub mod Refine
pub mod Callbacks
pub mod Attempts
pub mod Placing
pub mod History
use d_n_i_p.Prelude.{ℕ, zero, ◌+◌, ◌≡◌, Bool, true, false, Option, none, some, ◌==◌, if◌then◌else◌}
use d_n_i_p.Entitlement.Policy.{OrderStatus}
use d_n_i_p.Payment.Model.{PaymentStatus, is_pending}

pub record View : Type 0 where
  pub payment : ℕ → Option PaymentStatus
  pub order : ℕ → Option OrderStatus
  pub paid_rows : ℕ → ℕ

abbrev pub set : {A : Type 0} → ℕ → A → (ℕ → Option A) → ℕ → Option A
set i a f j = if j == i then some a else f j

abbrev pub Same : {A : Type 0} → (ℕ → A) → (ℕ → A) → Type 0
Same f g = (i : ℕ) → g i ≡ f i

pub data Move (v w : View) : Type 0 where
  -- nothing happens
  stay : Same v.payment w.payment → Same v.order w.order → Same v.paid_rows w.paid_rows → Move v w
  -- a pending payment ends
  finish :
      (p : ℕ) (st : PaymentStatus)
      → v.payment p ≡ some PaymentStatus.pending
      → is_pending st ≡ false
      → Same (set p st v.payment) w.payment
      → Same v.order w.order
      → Same v.paid_rows w.paid_rows
      → Move v w
  -- a pending payment pays its order, and one ORDER_PAID row is written
  pay :
      (p o : ℕ)
      → v.payment p ≡ some PaymentStatus.pending
      → v.order o ≡ some OrderStatus.pending_payment
      → Same (set p PaymentStatus.succeeded v.payment) w.payment
      → Same (set o OrderStatus.paid v.order) w.order
      → Same (λ i. v.paid_rows i + (if i == o then 1 else 0)) w.paid_rows
      → Move v w
  -- a pending payment is cancelled with its order
  withdraw :
      (p o : ℕ)
      → v.payment p ≡ some PaymentStatus.pending
      → v.order o ≡ some OrderStatus.pending_payment
      → Same (set p PaymentStatus.cancelled v.payment) w.payment
      → Same (set o OrderStatus.cancelled v.order) w.order
      → Same v.paid_rows w.paid_rows
      → Move v w
  -- a payment begins
  begin :
      (p : ℕ)
      → v.payment p ≡ none
      → Same (set p PaymentStatus.pending v.payment) w.payment
      → Same v.order w.order
      → Same v.paid_rows w.paid_rows
      → Move v w
  -- an order is placed, with its first payment
  place :
      (p o : ℕ)
      → v.payment p ≡ none
      → v.order o ≡ none
      → Same (set p PaymentStatus.pending v.payment) w.payment
      → Same (set o OrderStatus.pending_payment v.order) w.order
      → Same v.paid_rows w.paid_rows
      → Move v w

pub data Moves (v : View) : View → Type 0 where
  here : Moves v v
  next : {u w : View} → Moves v u → Move u w → Moves v w
