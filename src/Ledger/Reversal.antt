-- ===== src/Ledger/Reversal.antt =====
-- A refund takes back what the payment has booked.
use d_n_i_p.Prelude.{ℤ, pos, ◌+ℤ◌, negate, ◌≡◌, refl, inl, inr, ◌++◌, arith, Bool-cases}
use d_n_i_p.Ledger.Model.{
  LedgerAccountCode, BookingParams, entry, is_positive_amount, fee_or_zero, tax_entries,
  fee_entries, payment_entries, refund_entries, signed_amount, add_balances,
  calculate_ledger_balances,
}
use d_n_i_p.Ledger.Booking.{booked}

there_and_back : (a : ℤ) → (pos 0 +ℤ a) +ℤ negate a ≡ pos 0
unfolding ◌+ℤ◌
there_and_back a = ground arith

fee_left : (a f : ℤ) → ((pos 0 +ℤ a) +ℤ negate f) +ℤ negate a ≡ negate f
unfolding ◌+ℤ◌
fee_left a f = ground arith

zero_add : (a : ℤ) → pos 0 +ℤ a ≡ a
unfolding ◌+ℤ◌
zero_add a = ground arith

-- A payment and then a refund of an order leave no tax liability, as much refund expense as
-- revenue, and what is receivable short of the gateway fee, if there is one.
pub calculate_ledger_balances-reversal :
    (p : BookingParams)
    → let b = calculate_ledger_balances (payment_entries p ++ refund_entries p) in
      (b LedgerAccountCode.tax_liability ≡ pos 0)
      × (b LedgerAccountCode.refund_expense ≡ p.subtotal_minor)
      × (b LedgerAccountCode.sales_revenue ≡ p.subtotal_minor)
      × (b LedgerAccountCode.accounts_receivable
          ≡ negate (booked (fee_or_zero p.gateway_fee_minor)))
unfolding calculate_ledger_balances add_balances signed_amount payment_entries refund_entries
    tax_entries fee_entries entry
calculate_ledger_balances-reversal p =
    let tax = p.tax_amount_minor in
    let fee = fee_or_zero p.gateway_fee_minor in
    let total = p.total_amount_minor in
    elim (Bool-cases (is_positive_amount tax)) [
      | inl e ↦ elim (Bool-cases (is_positive_amount fee)) [
        | inl e2 ↦
            rw (e, e2)
              (
                there_and_back tax,
                zero_add p.subtotal_minor,
                zero_add p.subtotal_minor,
                fee_left total fee,
              )
        | inr e2 ↦
            rw (e, e2)
              (
                there_and_back tax,
                zero_add p.subtotal_minor,
                zero_add p.subtotal_minor,
                there_and_back total,
              )
      ]
      | inr e ↦ elim (Bool-cases (is_positive_amount fee)) [
        | inl e2 ↦
            rw (e, e2)
              (refl, zero_add p.subtotal_minor, zero_add p.subtotal_minor, fee_left total fee)
        | inr e2 ↦
            rw (e, e2)
              (refl, zero_add p.subtotal_minor, zero_add p.subtotal_minor, there_and_back total)
      ]
    ]
