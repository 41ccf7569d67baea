-- ===== src/Allocation/Reconcile.antt =====
-- reconcileExternalAllocations: the worker's sweep over ACTIVE allocations of ended entitlements.
use d_n_i_p.Prelude.{
  ℕ, Bool, false, not, ◌&&◌, Option, none, some, List, ◌++◌, map, filter_where, update_where, take,
  mem_id, or_default,
}
use d_n_i_p.Entitlement.Model.{Entitlement, EntitlementStatus, is_active, find_entitlement}
use d_n_i_p.Allocation.Model.{Allocation, AllocationStatus, Event, AuditRow, Store, is_running}

-- `a.status = 'ACTIVE' AND e.status IN ('REVOKED', 'EXPIRED')`, over a join; no locked row.
unfoldable pub is_stranded : (ℕ → Bool) → List Entitlement → Allocation → Bool
is_stranded locked es a =
    is_running a.status && not (locked a.id) && (elim (find_entitlement a.entitlement_id es) [
      | none ↦ false
      | some e ↦ not (is_active e.status)
    ])

unfoldable pub stranded : (ℕ → Bool) → ℕ → Store → List Allocation
stranded locked batch s =
    take batch (filter_where (is_stranded locked s.entitlements) s.allocations)

abbrev pub allocation_ids : List Allocation → List ℕ
allocation_ids = map (λ a. a.id)

unfoldable pub require_deactivation : Allocation → Allocation
require_deactivation a = record a { status = AllocationStatus.deactivation_pending }

-- The row comes from a join, so it has a parent.
unfoldable pub requirement_row : List Entitlement → ℕ → Allocation → AuditRow
requirement_row es worker_id a = record {
  entity_id = a.id;
  actor_id = none;
  event =
      Event.deactivation_required a.entitlement_id
        (elim (find_entitlement a.entitlement_id es) [
          | none ↦ EntitlementStatus.revoked
          | some e ↦ e.status
        ])
        a.provider_account_id a.normalized_domain worker_id;
}

unfoldable pub require_all : List Allocation → ℕ → Store → Store
require_all rows worker_id s = record s {
  allocations =
      update_where (λ a. mem_id a.id (allocation_ids rows)) require_deactivation s.allocations;
  audit_rows = s.audit_rows ++ map (requirement_row s.entitlements worker_id) rows;
}

unfoldable pub reconcile_allocations : (ℕ → Bool) → Option ℕ → ℕ → Store → List ℕ × Store
reconcile_allocations locked batch_size worker_id s =
    let rows = stranded locked (or_default batch_size 100) s in
    (allocation_ids rows, require_all rows worker_id s)
