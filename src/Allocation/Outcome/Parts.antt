-- ===== src/Allocation/Outcome/Parts.antt =====
-- What the calls of the allocation engine have in common: the row that changes, the account that is
-- full, and the cases of a result.
use d_n_i_p.Prelude.{
  ℕ, pos, ◌+◌, ◌≡◌, refl, ◌⊎◌, inl, inr, ◌==◌, update_where, if◌then◌else◌, leb_ℤ,
}
use d_n_i_p.Tx.{Result, ok, err}
use d_n_i_p.Allocation.Model.{Allocation, Account, ProviderAccountStatus, Store}
use d_n_i_p.Allocation.Review.{set_account_status}

-- The account that the last seat fills.
abbrev pub fill : Account → ℕ → Store → Store
fill acc count =
    if leb_ℤ acc.total_capacity (pos (count + 1))
    then set_account_status acc.id ProviderAccountStatus.exhausted
    else λ s. s

abbrev pub with_row : ℕ → (Allocation → Allocation) → Store → Store
with_row i f s = record s { allocations = update_where (λ x. x.id == i) f s.allocations }

pub Result-cases :
    {E A : Type 0} (r : Result E A) → ((a : A) × (r ≡ ok a)) ⊎ ((e : E) × (r ≡ err e))
Result-cases (ok a) = inl (a, refl)
Result-cases (err e) = inr (e, refl)
