-- ===== src/Ledger/Booking.antt =====
-- When an order's payment or refund is booked, and what that does to the balances.
use d_n_i_p.Prelude.{
  ℕ, ℤ, pos, negsuc, ◌+◌, ◌+ℤ◌, ◌≡◌, ◌↔◌, refl, inl, inr, true, false, List, [], ◌∷◌, arith,
  if◌then◌else◌, Bool-cases, to_ℕ, All,
}
use d_n_i_p.Ledger.Model.{
  LedgerEntry, BookingParams, totals_agree, is_zero_sum_ledger, is_positive_amount, is_debit,
  is_negative,
}

-- The tax that is booked.
abbrev pub booked : ℤ → ℤ
booked n = if is_positive_amount n then n else pos 0

abbrev pub AddsUp : BookingParams → Type 0
AddsUp p =
    (is_negative p.total_amount_minor ≡ false)
    × (is_negative p.subtotal_minor ≡ false)
    × (p.total_amount_minor ≡ p.subtotal_minor +ℤ booked p.tax_amount_minor)

pos_cases : (n : ℤ) → is_negative n ≡ false → (k : ℕ) × (n ≡ pos k)
pos_cases (pos k) h = (k, refl)
pos_cases (negsuc k) h = absurd (ground arith)

-- The totals of the debits and of the credits, for amounts that are not negative.
abbrev pub debits : List LedgerEntry → ℕ
debits [] = 0
debits (e ∷ es) = (if is_debit e.entry_type then to_ℕ e.amount_minor else 0) + debits es

abbrev pub credits : List LedgerEntry → ℕ
credits [] = 0
credits (e ∷ es) = (if is_debit e.entry_type then 0 else to_ℕ e.amount_minor) + credits es

add_pos : (a b : ℕ) → (pos a +ℤ pos b) ≡ pos (a + b)
unfolding ◌+ℤ◌
add_pos a b = ground arith

totals_agree_sound :
    (es : List LedgerEntry) (a b : ℕ)
    → totals_agree es (pos a) (pos b) ≡ true
    → All (λ e. is_negative e.amount_minor ≡ false) es × (a + debits es ≡ b + credits es)
unfolding totals_agree
totals_agree_sound [] a b h = (tt, ground arith)
totals_agree_sound (e ∷ es) a b h = elim (Bool-cases (is_negative e.amount_minor)) [
  | inl neg ↦ absurd (ground arith)
  | inr fine ↦
      let (n, is_pos) = pos_cases e.amount_minor fine in
      elim (Bool-cases (is_debit e.entry_type)) [
        | inl side ↦
            let step : totals_agree es (pos a +ℤ pos n) (pos b) ≡ true = ground arith in
            let (all, sums) = totals_agree_sound es (a + n) b (rw (add_pos a n) at step) in
            ((fine, all), ground arith)
        | inr side ↦
            let step : totals_agree es (pos a) (pos b +ℤ pos n) ≡ true = ground arith in
            let (all, sums) = totals_agree_sound es a (b + n) (rw (add_pos b n) at step) in
            ((fine, all), ground arith)
      ]
]

totals_agree_complete :
    (es : List LedgerEntry) (a b : ℕ)
    → All (λ e. is_negative e.amount_minor ≡ false) es
    → a + debits es ≡ b + credits es
    → totals_agree es (pos a) (pos b) ≡ true
unfolding totals_agree
totals_agree_complete [] a b h sums = ground arith
totals_agree_complete (e ∷ es) a b (fine, all) sums =
    let (n, is_pos) = pos_cases e.amount_minor fine in
    elim (Bool-cases (is_debit e.entry_type)) [
      | inl side ↦
          rw (fine, side, is_pos, add_pos a n)
            (totals_agree_complete es (a + n) b all (ground arith))
      | inr side ↦
          rw (fine, side, is_pos, add_pos b n)
            (totals_agree_complete es a (b + n) all (ground arith))
    ]

-- isZeroSumLedger says yes exactly if no amount is negative and the debits and the credits have
-- the same total.
pub is_zero_sum_ledger_iff :
    (es : List LedgerEntry)
    → (is_zero_sum_ledger es ≡ true)
      ↔ (All (λ e. is_negative e.amount_minor ≡ false) es × (debits es ≡ credits es))
unfolding is_zero_sum_ledger
is_zero_sum_ledger_iff es = (
  λ h. let (all, sums) = totals_agree_sound es 0 0 h in (all, omega (arith, sums)),
  λ k. totals_agree_complete es 0 0 k.0 (omega (arith, k.1)),
)
