-- ===== src/Ledger/Equation.antt =====
-- The accounting equation: a ledger that balances keeps the accounts in balance.
use d_n_i_p.Prelude.{
  ℕ, ℤ, pos, ◌+◌, ◌+ℤ◌, pos_part, neg_part, ◌≡◌, true, false, List, [], ◌∷◌, arith, to_ℕ, All,
  +ℤ_parts, eq_of_parts, if◌then◌else◌,
}
use d_n_i_p.Ledger.Model.{
  LedgerAccountCode, LedgerEntry, resolve_account_type, is_debit, is_negative, signed_amount,
  same_code, Balances, add_balances, calculate_ledger_balances, is_asset_or_expense,
  is_zero_sum_ledger,
}
use d_n_i_p.Ledger.Booking.{debits, credits, is_zero_sum_ledger_iff}

-- The accounts with a normal debit balance against those with a normal credit balance.
abbrev debit_weight : Balances → ℕ
debit_weight b =
    pos_part (b LedgerAccountCode.accounts_receivable)
    + pos_part (b LedgerAccountCode.refund_expense)
    + pos_part (b LedgerAccountCode.gateway_fee_expense)
    + neg_part (b LedgerAccountCode.sales_revenue)
    + neg_part (b LedgerAccountCode.tax_liability)
    + neg_part (b LedgerAccountCode.affiliate_commission_payable)

abbrev credit_weight : Balances → ℕ
credit_weight b =
    neg_part (b LedgerAccountCode.accounts_receivable)
    + neg_part (b LedgerAccountCode.refund_expense)
    + neg_part (b LedgerAccountCode.gateway_fee_expense)
    + pos_part (b LedgerAccountCode.sales_revenue)
    + pos_part (b LedgerAccountCode.tax_liability)
    + pos_part (b LedgerAccountCode.affiliate_commission_payable)

abbrev with_amount : LedgerAccountCode → ℤ → Balances → Balances
with_amount code z b = λ c. if same_code code c then b c +ℤ z else b c

-- An amount added to one account weighs on the side of that account.
with_amount_weight :
    (code : LedgerAccountCode) (z : ℤ) (b : Balances)
    → debit_weight (with_amount code z b)
        + credit_weight b
        + (if is_asset_or_expense (resolve_account_type code) then neg_part z else pos_part z)
      ≡ credit_weight (with_amount code z b)
        + debit_weight b
        + (if is_asset_or_expense (resolve_account_type code) then pos_part z else neg_part z)
with_amount_weight LedgerAccountCode.accounts_receivable z b =
    omega (arith, +ℤ_parts (b LedgerAccountCode.accounts_receivable) z)
with_amount_weight LedgerAccountCode.sales_revenue z b =
    omega (arith, +ℤ_parts (b LedgerAccountCode.sales_revenue) z)
with_amount_weight LedgerAccountCode.tax_liability z b =
    omega (arith, +ℤ_parts (b LedgerAccountCode.tax_liability) z)
with_amount_weight LedgerAccountCode.refund_expense z b =
    omega (arith, +ℤ_parts (b LedgerAccountCode.refund_expense) z)
with_amount_weight LedgerAccountCode.affiliate_commission_payable z b =
    omega (arith, +ℤ_parts (b LedgerAccountCode.affiliate_commission_payable) z)
with_amount_weight LedgerAccountCode.gateway_fee_expense z b =
    omega (arith, +ℤ_parts (b LedgerAccountCode.gateway_fee_expense) z)

-- An entry whose type is that of its account, and whose amount is not negative.
abbrev pub IsBooked : LedgerEntry → Type 0
IsBooked e =
    (e.account_type ≡ resolve_account_type e.account_code) × (is_negative e.amount_minor ≡ false)

signed_amount_parts :
    (e : LedgerEntry)
    → is_negative e.amount_minor ≡ false
    → let z = signed_amount e in
      let normal = is_asset_or_expense e.account_type in
      ((if normal then neg_part z else pos_part z)
        ≡ (if is_debit e.entry_type then 0 else to_ℕ e.amount_minor))
      × ((if normal then pos_part z else neg_part z)
          ≡ (if is_debit e.entry_type then to_ℕ e.amount_minor else 0))
unfolding signed_amount
signed_amount_parts e h = (ground arith, ground arith)

add_entry_weight :
    (e : LedgerEntry) (b : Balances)
    → IsBooked e
    → let b' = with_amount e.account_code (signed_amount e) b in
      debit_weight b' + credit_weight b + (if is_debit e.entry_type then 0 else to_ℕ e.amount_minor)
      ≡ credit_weight b'
        + debit_weight b
        + (if is_debit e.entry_type then to_ℕ e.amount_minor else 0)
add_entry_weight e b (type, sign) =
    let (minus, plus) = signed_amount_parts e sign in
    let step = with_amount_weight e.account_code (signed_amount e) b in
    omega (arith, rw (← type) at step, minus, plus)

add_balances_weight :
    (es : List LedgerEntry) (b : Balances)
    → All IsBooked es
    → debit_weight (add_balances es b) + credit_weight b + credits es
      ≡ credit_weight (add_balances es b) + debit_weight b + debits es
unfolding add_balances
add_balances_weight [] b h = omega arith
add_balances_weight (e ∷ es) b (fine, all) = omega (
  arith,
  add_entry_weight e b fine,
  add_balances_weight es (with_amount e.account_code (signed_amount e) b) all,
)

-- The balances of a ledger that passes isZeroSumLedger, with each entry of its account's type,
-- satisfy the accounting equation: what is receivable and the expenses are together the revenue
-- and the liabilities.
pub calculate_ledger_balances_equation :
    (es : List LedgerEntry)
    → All (λ e. e.account_type ≡ resolve_account_type e.account_code) es
    → is_zero_sum_ledger es ≡ true
    → let b = calculate_ledger_balances es in
      b LedgerAccountCode.accounts_receivable
        +ℤ b LedgerAccountCode.refund_expense
        +ℤ b LedgerAccountCode.gateway_fee_expense
      ≡ b LedgerAccountCode.sales_revenue
        +ℤ b LedgerAccountCode.tax_liability
        +ℤ b LedgerAccountCode.affiliate_commission_payable
unfolding calculate_ledger_balances
calculate_ledger_balances_equation es types h =
    let (signs, sums) = (is_zero_sum_ledger_iff es).0 h in
    let weights = add_balances_weight es (λ code. pos 0) (both es types signs) in
    let b = add_balances es (λ code. pos 0) in
    let ar = b LedgerAccountCode.accounts_receivable in
    let refund = b LedgerAccountCode.refund_expense in
    let fee = b LedgerAccountCode.gateway_fee_expense in
    let sales = b LedgerAccountCode.sales_revenue in
    let tax = b LedgerAccountCode.tax_liability in
    let commission = b LedgerAccountCode.affiliate_commission_payable in
    eq_of_parts (ar +ℤ refund +ℤ fee) (sales +ℤ tax +ℤ commission) (
      omega (
        arith,
        weights,
        sums,
        +ℤ_parts ar refund,
        +ℤ_parts (ar +ℤ refund) fee,
        +ℤ_parts sales tax,
        +ℤ_parts (sales +ℤ tax) commission,
      ))
  where
    both :
        (xs : List LedgerEntry)
        → All (λ e. e.account_type ≡ resolve_account_type e.account_code) xs
        → All (λ e. is_negative e.amount_minor ≡ false) xs
        → All IsBooked xs
    both [] t s = tt
    both (x ∷ xs) t s = ((t.0, s.0), both xs t.1 s.1)
