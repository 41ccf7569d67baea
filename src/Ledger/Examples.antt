-- ===== src/Ledger/Examples.antt =====
-- The ledger of one order with tax and a gateway fee. The theorems are applied here.
use d_n_i_p.Prelude.{◌+ℤ◌, pos, negate, ◌≡◌, ◌↔◌, refl, true, some, ◌++◌, All}
use d_n_i_p.Tx.{ok}
use d_n_i_p.Ledger.Model.{
  LedgerAccountCode, Currency, BookingParams, entry, tax_entries, fee_entries, payment_entries,
  refund_entries, is_zero_sum_ledger, build_order_payment_ledger_entries, calculate_ledger_balances,
  resolve_account_type,
}
use d_n_i_p.Ledger.Booking.{AddsUp}
use d_n_i_p.Ledger.Orders.{build_order_payment_ledger_entries_iff}
use d_n_i_p.Ledger.Equation.{calculate_ledger_balances_equation}
use d_n_i_p.Ledger.Reversal.{calculate_ledger_balances-reversal}

abbrev booking : BookingParams
booking = record {
  transaction_id = 1;
  order_id = 2;
  subtotal_minor = pos 1000;
  tax_amount_minor = pos 190;
  total_amount_minor = pos 1190;
  currency = Currency.usd;
  gateway_fee_minor = some (pos 30);
}

build_order_payment_ledger_entries_iff_example :
    (build_order_payment_ledger_entries booking ≡ ok (payment_entries booking)) ↔ AddsUp booking
build_order_payment_ledger_entries_iff_example = build_order_payment_ledger_entries_iff booking

types_right :
    All (λ e. e.account_type ≡ resolve_account_type e.account_code) (payment_entries booking)
unfolding payment_entries tax_entries fee_entries entry
types_right = (refl, (refl, (refl, (refl, (refl, tt)))))

balanced : is_zero_sum_ledger (payment_entries booking) ≡ true
unfolding is_zero_sum_ledger payment_entries ◌+ℤ◌
balanced = refl

calculate_ledger_balances_equation_example :
    calculate_ledger_balances (payment_entries booking) LedgerAccountCode.accounts_receivable
      +ℤ calculate_ledger_balances (payment_entries booking) LedgerAccountCode.refund_expense
      +ℤ calculate_ledger_balances (payment_entries booking) LedgerAccountCode.gateway_fee_expense
    ≡ calculate_ledger_balances (payment_entries booking) LedgerAccountCode.sales_revenue
      +ℤ calculate_ledger_balances (payment_entries booking) LedgerAccountCode.tax_liability
      +ℤ calculate_ledger_balances
          (payment_entries booking)
          LedgerAccountCode.affiliate_commission_payable
calculate_ledger_balances_equation_example =
    calculate_ledger_balances_equation (payment_entries booking) types_right balanced

calculate_ledger_balances-reversal_example :
    (calculate_ledger_balances
        (payment_entries booking ++ refund_entries booking)
        LedgerAccountCode.tax_liability
      ≡ pos 0)
    × (calculate_ledger_balances
          (payment_entries booking ++ refund_entries booking)
          LedgerAccountCode.refund_expense
        ≡ pos 1000)
    × (calculate_ledger_balances
          (payment_entries booking ++ refund_entries booking)
          LedgerAccountCode.sales_revenue
        ≡ pos 1000)
    × (calculate_ledger_balances
          (payment_entries booking ++ refund_entries booking)
          LedgerAccountCode.accounts_receivable
        ≡ negate (pos 30))
calculate_ledger_balances-reversal_example = calculate_ledger_balances-reversal booking
