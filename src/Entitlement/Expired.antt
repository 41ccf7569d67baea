-- ===== src/Entitlement/Expired.antt =====
-- The expiry sweep expires the rights that are due, and no others.
use mathlib.Core.List.{append-nil, append_assoc, map-append}
use d_n_i_p.Prelude.{
  insert_asc, order_asc, ℕ, suc, ◌≤◌, ◌≡◌, refl, sym, ap, ◌∙◌, inl, inr, Bool, true, false, ◌&&◌,
  ◌||◌, Option, some, List, [], ◌∷◌, ◌++◌, ◌==◌, map, arith, filter_where, update_where,
  count_where, take, length, mem_id, if◌then◌else◌, Unique, Bool-cases,
}
use d_n_i_p.Prelude.Rows.{update_where-none, find?-update, find?-Member, All-of_Member}
use d_n_i_p.Prelude.Batches.{
  order_asc-Member, take_all, length-filter, mem_id-filter, count-zero_after, update-update,
  chosen_sound, take-Member, filter_where-Member,
}
use d_n_i_p.Entitlement.Model.{Entitlement, is_active, find_entitlement}
use d_n_i_p.Entitlement.Issue.{Store, AuditRow}
use d_n_i_p.Entitlement.Expire.{
  limit_or, is_due, due, end_of, expired_row, still_active, expire_one, expire_all,
  expire_due_entitlements,
}

abbrev pub nobody : ℕ → Bool
nobody i = false

abbrev ids_of : List Entitlement → List ℕ
ids_of = map (λ e. e.id)

abbrev in_batch : List Entitlement → Entitlement → Bool
in_batch es x = mem_id x.id (ids_of es) && is_active x.status

expire_one-entitlements :
    (worker_id : ℕ) (e : Entitlement) (s : Store)
    → (expire_one worker_id e s).entitlements
      ≡ update_where (still_active e.id) expired_row s.entitlements
unfolding expire_one
expire_one-entitlements worker_id e s =
    ground (arith, update_where-none (still_active e.id) expired_row s.entitlements)

update_none :
    (f : Entitlement → Entitlement) (es : List Entitlement)
    → update_where (λ x. false && is_active x.status) f es ≡ es
update_none f [] = refl
update_none f (x ∷ es) = rw (update_none f es) refl

-- The loop is one update of all rows of the batch.
expire_all-entitlements :
    (worker_id : ℕ) (es : List Entitlement) (s : Store)
    → (expire_all worker_id es s).1.entitlements
      ≡ update_where (in_batch es) expired_row s.entitlements
unfolding expire_all
expire_all-entitlements worker_id [] s = sym (update_none expired_row s.entitlements)
expire_all-entitlements worker_id (e ∷ es) s =
    expire_all-entitlements worker_id es (expire_one worker_id e s)
    ∙ rw (expire_one-entitlements worker_id e s) (
        update-update (still_active e.id) (in_batch es) (in_batch (e ∷ es)) expired_row
          s.entitlements (λ x. unfold expired_row in ground arith) (λ x. ground arith))

insert_asc-mem_id :
    (i : ℕ) (e : Entitlement) (xs : List Entitlement)
    → mem_id i (ids_of (insert_asc end_of e xs)) ≡ (i == e.id || mem_id i (ids_of xs))
unfolding insert_asc
insert_asc-mem_id i e [] = ground arith
insert_asc-mem_id i e (x ∷ xs) = ground (arith, insert_asc-mem_id i e xs)

order_asc-mem_id :
    (i : ℕ) (xs : List Entitlement) → mem_id i (ids_of (order_asc end_of xs)) ≡ mem_id i (ids_of xs)
unfolding order_asc
order_asc-mem_id i [] = refl
order_asc-mem_id i (x ∷ xs) =
    ground (arith, insert_asc-mem_id i x (order_asc end_of xs), order_asc-mem_id i xs)

insert_asc-length :
    (e : Entitlement) (xs : List Entitlement) → length (insert_asc end_of e xs) ≡ suc (length xs)
unfolding insert_asc
insert_asc-length e [] = refl
insert_asc-length e (x ∷ xs) = ground (arith, insert_asc-length e xs)

order_asc-length : (xs : List Entitlement) → length (order_asc end_of xs) ≡ length xs
unfolding order_asc
order_asc-length [] = refl
order_asc-length (x ∷ xs) =
    omega (arith, insert_asc-length x (order_asc end_of xs), order_asc-length xs)

-- After a run that no lock hinders and whose limit is no less than the number of rows that were
-- due, none is due.
pub expire_due_entitlements_completes :
    (limit : Option ℕ) (worker_id now : ℕ) (s : Store)
    → count_where (is_due nobody now) s.entitlements ≤ limit_or limit
    → count_where
        (is_due nobody now)
        (expire_due_entitlements nobody limit worker_id now s).1.entitlements
      ≡ 0
unfolding expire_due_entitlements due
expire_due_entitlements_completes limit worker_id now s fits =
    let p = is_due nobody now in
    let rows = filter_where p s.entitlements in
    let whole : take (limit_or limit) (order_asc end_of rows) ≡ order_asc end_of rows =
      take_all (limit_or limit) (order_asc end_of rows)
        (omega (arith, order_asc-length rows, length-filter p s.entitlements, fits)) in
    rw (whole, expire_all-entitlements worker_id (order_asc end_of rows) s)
      (count-zero_after p (in_batch (order_asc end_of rows)) expired_row s.entitlements
        (All-of_Member _ s.entitlements (λ e m out. elim (Bool-cases (p e)) [
          | inr b ↦ b
          | inl b ↦ absurd (
              unfold is_due in
              ground (
                arith,
                order_asc-mem_id e.id rows,
                mem_id-filter Entitlement.id p s.entitlements e m b,
              ))
        ]))
        (λ e. unfold is_due expired_row in refl))

-- A right that is not due, or is locked by another transaction, is found again unchanged after a
-- run, if ids are unique.
pub expire_due_entitlements_only :
    (locked : ℕ → Bool) (limit : Option ℕ) (worker_id now i : ℕ) (s : Store) (e : Entitlement)
    → Unique Entitlement.id s.entitlements
    → find_entitlement i s.entitlements ≡ some e
    → is_due locked now e ≡ false
    → find_entitlement i (expire_due_entitlements locked limit worker_id now s).1.entitlements
      ≡ some e
unfolding expire_due_entitlements due expired_row
expire_due_entitlements_only locked limit worker_id now i s e u found not_due =
    let p = is_due locked now in
    let rows = take (limit_or limit) (order_asc end_of (filter_where p s.entitlements)) in
    let seen =
      find?-update (λ x. x.id == i) (in_batch rows) expired_row s.entitlements (λ x _. refl) in
    elim (Bool-cases (mem_id e.id (ids_of rows))) [
      | inr b ↦ rw (expire_all-entitlements worker_id rows s) (ground arith)
      | inl b ↦ absurd (
          ground (
            arith,
            chosen_sound Entitlement.id p s.entitlements rows e u
                (find?-Member (λ x. x.id == i) s.entitlements found)
                (λ y m. filter_where-Member p s.entitlements y (
                  order_asc-Member end_of (filter_where p s.entitlements) y (
                    take-Member (limit_or limit) (order_asc end_of (filter_where p s.entitlements))
                      y m)))
                b,
          ))
    ]

expire_one-audits :
    (worker_id : ℕ) (e : Entitlement) (s : Store)
    → map AuditRow.entity_id (expire_one worker_id e s).audit_rows
      ≡ map AuditRow.entity_id s.audit_rows
        ++ (if count_where (still_active e.id) s.entitlements == 0 then [] else e.id ∷ [])
unfolding expire_one
expire_one-audits worker_id e s =
    elim (Bool-cases (count_where (still_active e.id) s.entitlements == 0)) [
      | inl b ↦ rw (b, expire_one) (sym (append-nil (map AuditRow.entity_id s.audit_rows)))
      | inr b ↦ rw (b, expire_one) (map-append AuditRow.entity_id s.audit_rows _)
    ]

answer :
    (gone : Bool) (i : ℕ) (ids : List ℕ)
    → ((if gone then [] else i ∷ []) ++ ids) ≡ (if gone then ids else i ∷ ids)
answer true i ids = refl
answer false i ids = refl

expire_all-audits :
    (worker_id : ℕ) (es : List Entitlement) (s : Store)
    → map AuditRow.entity_id (expire_all worker_id es s).1.audit_rows
      ≡ map AuditRow.entity_id s.audit_rows ++ (expire_all worker_id es s).0
unfolding expire_all
expire_all-audits worker_id [] s = sym (append-nil (map AuditRow.entity_id s.audit_rows))
expire_all-audits worker_id (e ∷ es) s =
    let t = expire_one worker_id e s in
    let ids = (expire_all worker_id es t).0 in
    let gone = count_where (still_active e.id) s.entitlements == 0 in
    let own : List ℕ = if gone then [] else e.id ∷ [] in
    expire_all-audits worker_id es t
    ∙ ap (λ z. z ++ ids) (expire_one-audits worker_id e s)
    ∙ append_assoc (map AuditRow.entity_id s.audit_rows) own ids
    ∙ ap (λ z. map AuditRow.entity_id s.audit_rows ++ z) (answer gone e.id ids)

-- A run writes one audit row for each right that it answers with, in the order of the answer.
pub expire_due_entitlements_audits :
    (locked : ℕ → Bool) (limit : Option ℕ) (worker_id now : ℕ) (s : Store)
    → let (ids, s') = expire_due_entitlements locked limit worker_id now s in
      map AuditRow.entity_id s'.audit_rows ≡ map AuditRow.entity_id s.audit_rows ++ ids
unfolding expire_due_entitlements
expire_due_entitlements_audits locked limit worker_id now s =
    expire_all-audits worker_id (due locked (limit_or limit) now s) s
