-- ===== src/Ledger/Model.antt =====
-- The entries of the ledger, how an order's payment and refund are booked
-- (packages/database/src/domain/ledger-engine.ts), and isZeroSumLedger
-- (packages/utils/src/tax-utils.ts). The reference type, which is always the order, and the
-- descriptions are left out.
use d_n_i_p.Prelude.{
  ℕ, ℤ, pos, ◌+ℤ◌, negate, Bool, true, false, ◌&&◌, Option, none, some, List, [], ◌∷◌, ◌++◌, leb_ℤ,
  ltb_ℤ, if◌then◌else◌,
}
use d_n_i_p.Tx.{Result, ok, err}

pub data LedgerAccountType : Type 0 where
  asset liability equity revenue expense : LedgerAccountType

pub data LedgerAccountCode : Type 0 where
  accounts_receivable sales_revenue tax_liability : LedgerAccountCode
  refund_expense affiliate_commission_payable gateway_fee_expense : LedgerAccountCode

pub data LedgerEntryType : Type 0 where
  debit credit : LedgerEntryType

pub data Currency : Type 0 where
  vnd usd : Currency

pub record LedgerEntry : Type 0 where
  pub transaction_id : ℕ
  pub account_code : LedgerAccountCode
  pub account_type : LedgerAccountType
  pub entry_type : LedgerEntryType
  pub amount_minor : ℤ
  pub currency : Currency
  pub reference_id : ℕ

abbrev pub resolve_account_type : LedgerAccountCode → LedgerAccountType
resolve_account_type LedgerAccountCode.accounts_receivable = LedgerAccountType.asset
resolve_account_type LedgerAccountCode.tax_liability = LedgerAccountType.liability
resolve_account_type LedgerAccountCode.affiliate_commission_payable = LedgerAccountType.liability
resolve_account_type LedgerAccountCode.sales_revenue = LedgerAccountType.revenue
resolve_account_type LedgerAccountCode.refund_expense = LedgerAccountType.expense
resolve_account_type LedgerAccountCode.gateway_fee_expense = LedgerAccountType.expense

abbrev pub is_debit : LedgerEntryType → Bool
is_debit LedgerEntryType.debit = true
is_debit LedgerEntryType.credit = false

abbrev pub is_negative : ℤ → Bool
is_negative n = ltb_ℤ n (pos 0)

abbrev pub same_amount : ℤ → ℤ → Bool
same_amount a b = leb_ℤ a b && leb_ℤ b a

-- The loop of isZeroSumLedger with its two totals; a negative amount ends it.
unfoldable pub totals_agree : List LedgerEntry → ℤ → ℤ → Bool
totals_agree [] debits credits = same_amount debits credits
totals_agree (e ∷ es) debits credits =
    let rest = totals_agree es in
    if is_negative e.amount_minor
    then false
    else if is_debit e.entry_type
    then rest (debits +ℤ e.amount_minor) credits
    else rest debits (credits +ℤ e.amount_minor)

unfoldable pub is_zero_sum_ledger : List LedgerEntry → Bool
unfolding totals_agree
is_zero_sum_ledger es = totals_agree es (pos 0) (pos 0)

-- The parameters of both builders; a refund has no gateway fee. `gatewayFeeMinor = 0` by default.
pub record BookingParams : Type 0 where
  pub transaction_id : ℕ
  pub order_id : ℕ
  pub subtotal_minor : ℤ
  pub tax_amount_minor : ℤ
  pub total_amount_minor : ℤ
  pub currency : Currency
  pub gateway_fee_minor : Option ℤ

-- `Ledger integrity error`, for the order.
pub data LedgerError : Type 0 where
  unbalanced : ℕ → LedgerError

unfoldable pub entry : BookingParams → LedgerAccountCode → LedgerEntryType → ℤ → LedgerEntry
entry p code side amount = record {
  transaction_id = p.transaction_id;
  account_code = code;
  account_type = resolve_account_type code;
  entry_type = side;
  amount_minor = amount;
  currency = p.currency;
  reference_id = p.order_id;
}

abbrev pub is_positive_amount : ℤ → Bool
is_positive_amount n = ltb_ℤ (pos 0) n

abbrev pub fee_or_zero : Option ℤ → ℤ
fee_or_zero none = pos 0
fee_or_zero (some n) = n

-- `if (taxAmountMinor > 0) entries.push(…)`
unfoldable pub tax_entries : BookingParams → LedgerEntryType → List LedgerEntry
unfolding entry
tax_entries p side =
    if is_positive_amount p.tax_amount_minor
    then entry p LedgerAccountCode.tax_liability side p.tax_amount_minor ∷ []
    else []

-- The fee, and its withholding from what is receivable.
unfoldable pub fee_entries : BookingParams → List LedgerEntry
unfolding entry
fee_entries p =
    let fee = fee_or_zero p.gateway_fee_minor in
    if is_positive_amount fee
    then (entry p LedgerAccountCode.gateway_fee_expense LedgerEntryType.debit fee
        ∷ entry p LedgerAccountCode.accounts_receivable LedgerEntryType.credit fee
        ∷ [])
    else []

unfoldable pub payment_entries : BookingParams → List LedgerEntry
unfolding entry tax_entries fee_entries
payment_entries p =
    entry p LedgerAccountCode.accounts_receivable LedgerEntryType.debit p.total_amount_minor
      ∷ entry p LedgerAccountCode.sales_revenue LedgerEntryType.credit p.subtotal_minor
      ∷ tax_entries p LedgerEntryType.credit
    ++ fee_entries p

unfoldable pub refund_entries : BookingParams → List LedgerEntry
unfolding entry tax_entries
refund_entries p =
    entry p LedgerAccountCode.refund_expense LedgerEntryType.debit p.subtotal_minor
      ∷ tax_entries p LedgerEntryType.debit
    ++ entry p LedgerAccountCode.accounts_receivable LedgerEntryType.credit p.total_amount_minor
      ∷ []

abbrev pub checked : ℕ → List LedgerEntry → Result LedgerError (List LedgerEntry)
checked order_id es = elim (is_zero_sum_ledger es) [
  | true ↦ ok es
  | false ↦ err (LedgerError.unbalanced order_id)
]

-- buildOrderPaymentLedgerEntries
unfoldable pub build_order_payment_ledger_entries :
    BookingParams → Result LedgerError (List LedgerEntry)
build_order_payment_ledger_entries p = checked p.order_id (payment_entries p)

-- buildOrderRefundLedgerEntries
unfoldable pub build_order_refund_ledger_entries :
    BookingParams → Result LedgerError (List LedgerEntry)
build_order_refund_ledger_entries p = checked p.order_id (refund_entries p)

abbrev pub is_asset_or_expense : LedgerAccountType → Bool
is_asset_or_expense LedgerAccountType.asset = true
is_asset_or_expense LedgerAccountType.expense = true
is_asset_or_expense _ = false

abbrev pub same_code : LedgerAccountCode → LedgerAccountCode → Bool
same_code LedgerAccountCode.accounts_receivable LedgerAccountCode.accounts_receivable = true
same_code LedgerAccountCode.sales_revenue LedgerAccountCode.sales_revenue = true
same_code LedgerAccountCode.tax_liability LedgerAccountCode.tax_liability = true
same_code LedgerAccountCode.refund_expense LedgerAccountCode.refund_expense = true
same_code LedgerAccountCode.affiliate_commission_payable
      LedgerAccountCode.affiliate_commission_payable =
    true
same_code LedgerAccountCode.gateway_fee_expense LedgerAccountCode.gateway_fee_expense = true
same_code _ _ = false

-- What an entry adds to the balance of its account.
unfoldable pub signed_amount : LedgerEntry → ℤ
signed_amount e =
    if is_asset_or_expense e.account_type
    then (if is_debit e.entry_type then e.amount_minor else negate e.amount_minor)
    else (if is_debit e.entry_type then negate e.amount_minor else e.amount_minor)

abbrev pub Balances : Type 0
Balances = LedgerAccountCode → ℤ

-- The loop of calculateLedgerBalances; `balances[entry.accountCode] += …`.
unfoldable pub add_balances : List LedgerEntry → Balances → Balances
unfolding signed_amount
add_balances [] b = b
add_balances (e ∷ es) b =
    add_balances es
      (λ code. if same_code e.account_code code then b code +ℤ signed_amount e else b code)

unfoldable pub calculate_ledger_balances : List LedgerEntry → Balances
unfolding add_balances
calculate_ledger_balances es = add_balances es (λ code. pos 0)
