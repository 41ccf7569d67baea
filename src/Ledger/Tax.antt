-- ===== src/Ledger/Tax.antt =====
-- calculateTaxMinor (packages/utils/src/tax-utils.ts), as long as the product of its arguments is
-- below 2 ^ 52, where the division of the program rounds to the same whole number.
use d_n_i_p.Prelude.{
  ℕ, zero, suc, ◌+◌, ◌*◌, ◌/◌, ◌≤◌, ◌<◌, ◌≡◌, ℤ, pos, false, ◌||◌, leb_ℤ, to_ℕ, arith,
  if◌then◌else◌,
}

-- `Math.round` of a quotient that is not negative: halves go up.
abbrev pub rounded : ℕ → ℕ → ℕ
rounded a b = (2 * a + b) / (2 * b)

unfoldable pub calculate_tax_minor : ℤ → ℤ → ℕ
calculate_tax_minor subtotal_minor tax_rate_basis_points =
    if leb_ℤ subtotal_minor (pos 0) || leb_ℤ tax_rate_basis_points (pos 0)
    then 0
    else rounded (to_ℕ subtotal_minor * to_ℕ tax_rate_basis_points) 10000

-- The tax is within half a unit of the exact one, and a half is rounded up.
pub calculate_tax_minor_nearest :
    (subtotal rate : ℕ)
    → let t = calculate_tax_minor (pos subtotal) (pos rate) in
      (2 * (subtotal * rate) < 20000 * t + 10000) × (20000 * t ≤ 2 * (subtotal * rate) + 10000)
unfolding calculate_tax_minor
calculate_tax_minor_nearest zero rate = (omega arith, omega arith)
calculate_tax_minor_nearest (suc k) zero = (ground arith, ground arith)
calculate_tax_minor_nearest (suc k) (suc n) =
    let guard : (leb_ℤ (pos (suc k)) (pos 0) || leb_ℤ (pos (suc n)) (pos 0)) ≡ false =
      ground arith in
    rw guard (omega arith, omega arith)
