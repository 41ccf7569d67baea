-- ===== src/Ledger/Orders.antt =====
-- When an order's payment or refund is booked.
use d_n_i_p.Prelude.{◌+◌, ◌+ℤ◌, ◌≡◌, ◌↔◌, inl, inr, true, false, arith, to_ℕ, All, Bool-cases}
use d_n_i_p.Tx.{ok}
use d_n_i_p.Ledger.Model.{
  BookingParams, is_zero_sum_ledger, entry, is_positive_amount, is_negative, fee_or_zero,
  tax_entries, fee_entries, payment_entries, refund_entries, build_order_payment_ledger_entries,
  build_order_refund_ledger_entries,
}
use d_n_i_p.Ledger.Booking.{debits, credits, is_zero_sum_ledger_iff, booked, AddsUp}

module _ (p : BookingParams) where
  payment_sums :
      (debits (payment_entries p)
        ≡ to_ℕ p.total_amount_minor + to_ℕ (booked (fee_or_zero p.gateway_fee_minor)))
      × (credits (payment_entries p)
          ≡ to_ℕ p.subtotal_minor
            + to_ℕ (booked p.tax_amount_minor)
            + to_ℕ (booked (fee_or_zero p.gateway_fee_minor)))
  unfolding payment_entries tax_entries fee_entries entry
  payment_sums = elim (Bool-cases (is_positive_amount p.tax_amount_minor)) [
    | inl e ↦ elim (Bool-cases (is_positive_amount (fee_or_zero p.gateway_fee_minor))) [
      | inl e2 ↦ rw (e, e2) (omega arith, omega arith)
      | inr e2 ↦ rw (e, e2) (omega arith, omega arith)
    ]
    | inr e ↦ elim (Bool-cases (is_positive_amount (fee_or_zero p.gateway_fee_minor))) [
      | inl e2 ↦ rw (e, e2) (omega arith, omega arith)
      | inr e2 ↦ rw (e, e2) (omega arith, omega arith)
    ]
  ]

  payment-NotNegative :
      All (λ e. is_negative e.amount_minor ≡ false) (payment_entries p)
      ↔ ((is_negative p.total_amount_minor ≡ false) × (is_negative p.subtotal_minor ≡ false))
  unfolding payment_entries tax_entries fee_entries entry
  payment-NotNegative = elim (Bool-cases (is_positive_amount p.tax_amount_minor)) [
    | inl e ↦ elim (Bool-cases (is_positive_amount (fee_or_zero p.gateway_fee_minor))) [
      | inl e2 ↦
          rw (e, e2)
            (
              λ h. (h.0, h.1.0),
              λ k. (k.0, (k.1, (ground arith, (ground arith, (ground arith, tt))))),
            )
      | inr e2 ↦ rw (e, e2) (λ h. (h.0, h.1.0), λ k. (k.0, (k.1, (ground arith, tt))))
    ]
    | inr e ↦ elim (Bool-cases (is_positive_amount (fee_or_zero p.gateway_fee_minor))) [
      | inl e2 ↦
          rw (e, e2) (λ h. (h.0, h.1.0), λ k. (k.0, (k.1, (ground arith, (ground arith, tt)))))
      | inr e2 ↦ rw (e, e2) (λ h. (h.0, h.1.0), λ k. (k.0, (k.1, tt)))
    ]
  ]

  add_up :
      (is_negative p.total_amount_minor ≡ false)
      → (is_negative p.subtotal_minor ≡ false)
      → (to_ℕ p.total_amount_minor ≡ to_ℕ p.subtotal_minor + to_ℕ (booked p.tax_amount_minor))
      → p.total_amount_minor ≡ p.subtotal_minor +ℤ booked p.tax_amount_minor
  unfolding ◌+ℤ◌
  add_up h k e = ground arith

  sums_up :
      (is_negative p.total_amount_minor ≡ false)
      → (is_negative p.subtotal_minor ≡ false)
      → p.total_amount_minor ≡ p.subtotal_minor +ℤ booked p.tax_amount_minor
      → (to_ℕ p.total_amount_minor ≡ to_ℕ p.subtotal_minor + to_ℕ (booked p.tax_amount_minor))
  unfolding ◌+ℤ◌
  sums_up h k e = ground arith

  refund_sums :
      (debits (refund_entries p) ≡ to_ℕ p.subtotal_minor + to_ℕ (booked p.tax_amount_minor))
      × (credits (refund_entries p) ≡ to_ℕ p.total_amount_minor)
  unfolding refund_entries tax_entries entry
  refund_sums = elim (Bool-cases (is_positive_amount p.tax_amount_minor)) [
    | inl e ↦ rw e (omega arith, omega arith)
    | inr e ↦ rw e (omega arith, omega arith)
  ]

  refund-NotNegative :
      All (λ e. is_negative e.amount_minor ≡ false) (refund_entries p)
      ↔ ((is_negative p.total_amount_minor ≡ false) × (is_negative p.subtotal_minor ≡ false))
  unfolding refund_entries tax_entries entry
  refund-NotNegative = elim (Bool-cases (is_positive_amount p.tax_amount_minor)) [
    | inl e ↦ rw e (λ h. (h.1.1.0, h.0), λ k. (k.1, (ground arith, (k.0, tt))))
    | inr e ↦ rw e (λ h. (h.1.0, h.0), λ k. (k.1, (k.0, tt)))
  ]

  payment_zero_sum : (is_zero_sum_ledger (payment_entries p) ≡ true) ↔ AddsUp p
  payment_zero_sum = (
    λ h.
        let (signs, sums) = (is_zero_sum_ledger_iff (payment_entries p)).0 h in
        let (total, subtotal) = payment-NotNegative.0 signs in
        (
          total,
          subtotal,
          add_up total subtotal (omega (arith, sums, payment_sums.0, payment_sums.1)),
        ),
    λ k. (is_zero_sum_ledger_iff (payment_entries p)).1 (
      payment-NotNegative.1 (k.0, k.1),
      omega (arith, payment_sums.0, payment_sums.1, sums_up k.0 k.1 k.2),
    ),
  )

  refund_zero_sum : (is_zero_sum_ledger (refund_entries p) ≡ true) ↔ AddsUp p
  refund_zero_sum = (
    λ h.
        let (signs, sums) = (is_zero_sum_ledger_iff (refund_entries p)).0 h in
        let (total, subtotal) = refund-NotNegative.0 signs in
        (
          total,
          subtotal,
          add_up total subtotal (omega (arith, sums, refund_sums.0, refund_sums.1)),
        ),
    λ k. (is_zero_sum_ledger_iff (refund_entries p)).1 (
      refund-NotNegative.1 (k.0, k.1),
      omega (arith, refund_sums.0, refund_sums.1, sums_up k.0 k.1 k.2),
    ),
  )

  -- A payment is booked, whatever the gateway fee, exactly if its total and its subtotal are not
  -- negative and the total is the subtotal and the tax, if that is positive.
  pub build_order_payment_ledger_entries_iff :
      (build_order_payment_ledger_entries p ≡ ok (payment_entries p)) ↔ AddsUp p
  unfolding build_order_payment_ledger_entries
  build_order_payment_ledger_entries_iff = (
    λ h. payment_zero_sum.0 (ground arith),
    λ k.
        let balanced : is_zero_sum_ledger (payment_entries p) ≡ true = payment_zero_sum.1 k in
        ground arith,
  )

  -- A refund is booked exactly if its total and its subtotal are not negative and the total is
  -- the subtotal and the tax, if that is positive.
  pub build_order_refund_ledger_entries_iff :
      (build_order_refund_ledger_entries p ≡ ok (refund_entries p)) ↔ AddsUp p
  unfolding build_order_refund_ledger_entries
  build_order_refund_ledger_entries_iff = (
    λ h. refund_zero_sum.0 (ground arith),
    λ k.
        let balanced : is_zero_sum_ledger (refund_entries p) ≡ true = refund_zero_sum.1 k in
        ground arith,
  )
