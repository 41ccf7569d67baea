-- ===== src/Entitlement/Expire.antt =====
-- expireDueEntitlements (packages/database/src/domain/entitlement-engine.ts).
use d_n_i_p.Prelude.{
  order_asc, ℕ, Bool, not, ◌&&◌, Option, none, some, List, [], ◌∷◌, ◌++◌, ◌==◌, filter_where,
  update_where, count_where, take, if◌then◌else◌,
}
use d_n_i_p.Entitlement.Model.{Entitlement, EntitlementStatus, is_active, is_past}
use d_n_i_p.Entitlement.Issue.{Store, Event}

-- `options.limit ?? 100`
abbrev pub limit_or : Option ℕ → ℕ
limit_or none = 100
limit_or (some n) = n

-- The ACTIVE rows whose time is up, without those that another transaction has locked.
unfoldable pub is_due : (ℕ → Bool) → ℕ → Entitlement → Bool
is_due locked now e = is_active e.status && is_past now e.expires_at && not (locked e.id)

abbrev pub end_of : Entitlement → ℕ
end_of e = elim e.expires_at [ none ↦ 0 | some t ↦ t ]

-- `ORDER BY "expires_at" ASC`; each row that is due has an end.
unfoldable pub due : (ℕ → Bool) → ℕ → ℕ → Store → List Entitlement
unfolding order_asc is_due
due locked limit now s =
    take limit (order_asc end_of (filter_where (is_due locked now) s.entitlements))

unfoldable pub expired_row : Entitlement → Entitlement
expired_row e = record e { status = EntitlementStatus.expired }

-- The rows that the `updateMany` for one record changes.
abbrev pub still_active : ℕ → Entitlement → Bool
still_active i x = x.id == i && is_active x.status

unfoldable pub expire_one : ℕ → Entitlement → Store → Store
expire_one worker_id e s =
    if count_where (still_active e.id) s.entitlements == 0 then s else record s {
      entitlements = update_where (still_active e.id) expired_row s.entitlements;
      audit_rows =
          s.audit_rows
          ++ record {
            entity_id = e.id;
            event = Event.expired worker_id e.order_id e.order_item_id e.user_id;
          }
            ∷ [];
    }

-- `for (const rec of dueRecords)`; the answer is `expiredIds`.
unfoldable pub expire_all : ℕ → List Entitlement → Store → List ℕ × Store
unfolding expire_one
expire_all worker_id [] s = ([], s)
expire_all worker_id (e ∷ es) s =
    let (ids, s') = expire_all worker_id es (expire_one worker_id e s) in
    (if count_where (still_active e.id) s.entitlements == 0 then ids else e.id ∷ ids, s')

unfoldable pub expire_due_entitlements : (ℕ → Bool) → Option ℕ → ℕ → ℕ → Store → List ℕ × Store
unfolding due expire_all
expire_due_entitlements locked limit worker_id now s =
    expire_all worker_id (due locked (limit_or limit) now s) s
